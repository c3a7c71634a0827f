-- ===== src/SelfUpdate/Settling.antt =====
-- From a consistent state of src/self_update.rs to one with a task less or more.
use mathlib.Core.Path.{subst}
use update_delivery_system.Prelude.{
  ℕ, ◌≡◌, refl, sym, ap, ◌∙◌, ◌⊎◌, inl, inr, String, none, List, [], ◌∷◌, ◌++◌,
}
use update_delivery_system.Errors.{ok}
use update_delivery_system.SelfUpdate.{StartUpdateRequest, UpdateOperation, terminal}
use update_delivery_system.SelfUpdate.Manager.{
  missing, holds, Directory, Node, file_at, active_operation, put_operation, new_operation,
}
use update_delivery_system.SelfUpdate.Steps.{IsActive, IsKeyed, TasksFit, AtMostOne, IsConsistent}
use update_delivery_system.SelfUpdate.Records.{
  Only, Only-change_directory, file_at-change_directory, Records, IsSettled, Sole, Sole-Only,
  AtMostOne-Sole, IsKeyed-Only,
}
use update_delivery_system.SelfUpdate.Tasks.{none_active, Begun}

-- Each recorded request stays recorded.
abbrev pub Keeps : Node → Node → Type 0
Keeps n m =
    (i : ℕ) (operation : UpdateOperation)
    → file_at i n ≡ holds operation
    → Records i operation.request m

abbrev pub Good : Node → Node → Type 0
Good n m = IsConsistent m × Keeps n m

pub Keeps-Only :
    (id : ℕ) (n m : Node) (operation : UpdateOperation)
    → file_at id n ≡ holds operation
    → Only id n m
    → Records id operation.request m
    → Keeps n m
Keeps-Only id n m operation e o r i other f = go (o i)
  where
    go : (i ≡ id) ⊎ (file_at i m ≡ file_at i n) → Records i other.request m
    go (inr g) = (other, g ∙ f, refl)
    go (inl g) = subst (λ (j : ℕ). Records j other.request m) (sym g) (r.0, r.1, r.2 ∙ same g)
      where
        same : i ≡ id → operation.request ≡ other.request
        same g = cc (ap (λ (j : ℕ). file_at j n) g)

pub Sole-active : (n : Node) (id : ℕ) → AtMostOne n → IsActive id n → Sole id n
Sole-active n id s a j b = s j id b a

pub settled-Good :
    (n m : Node) (operation : UpdateOperation)
    → IsKeyed n
    → file_at operation.request.operation_id n ≡ holds operation
    → Sole operation.request.operation_id n
    → IsSettled operation.request n m
    → Good n m
settled-Good n m operation k e s t =
    let id = operation.request.operation_id in
    (
      record {
        keyed =
            IsKeyed-Only id n m k t.only t.recorded.0 t.recorded.1
              (ap (λ (r : StartUpdateRequest). r.operation_id) t.recorded.2);
        tasks = inl (t.none_spawned, t.none_staging);
        single = AtMostOne-Sole id m (Sole-Only id n m s t.only);
      },
      Keeps-Only id n m operation e t.only t.recorded,
    )

pub Begun-Good :
    (n m : Node) (operation : UpdateOperation)
    → IsKeyed n
    → file_at operation.request.operation_id n ≡ holds operation
    → Sole operation.request.operation_id n
    → Begun operation n m
    → Good n m
Begun-Good n m operation k e s (inl t) = settled-Good n m operation k e s t
Begun-Good n m operation k e s (inr (after, r, d, f, o, p, q)) =
    let id = operation.request.operation_id in
    let same = ap (λ (r : StartUpdateRequest). r.operation_id) r in
    (
      record {
        keyed = IsKeyed-Only id n m k o after f same;
        tasks =
            inr (inr (after, p, q, subst (λ (j : ℕ). file_at j m ≡ holds after) (sym same) f, d));
        single = AtMostOne-Sole id m (Sole-Only id n m s o);
      },
      Keeps-Only id n m operation e o (after, f, r),
    )

no_task :
    (n : Node) → TasksFit n → ((id : ℕ) → IsActive id n → ⊥) → (n.spawned ≡ []) × (n.staging ≡ [])
unfolding terminal
no_task n (inl t) inactive = t
no_task n (inr (inl (id, operation, p, q, f, s))) inactive =
    elim (inactive id (operation, f, ap terminal s)) [ ]
no_task n (inr (inr (operation, p, q, f, s))) inactive =
    elim (inactive operation.request.operation_id (operation, f, ap terminal s)) [ ]

pub started-Good :
    (now : String) (request : StartUpdateRequest) (n m : Node)
    → IsConsistent n
    → file_at request.operation_id n ≡ missing
    → active_operation n.operations ≡ ok none
    → m ≡ record (put_operation (new_operation now request) n) {
      spawned = n.spawned ++ request.operation_id ∷ [];
    }
    → Good n m
started-Good now request n m c f a e = subst (Good n) (sym e) (
  record {
    keyed = IsKeyed-Only id n m' c.keyed only new file refl;
    tasks = inr (inl (id, new, ap (λ (l : List ℕ). l ++ id ∷ []) free.0, free.1, file, refl));
    single = AtMostOne-Sole id m' (Sole-Only id n m' (λ j b. elim (none_active n a j b) [ ]) only);
  },
  λ i other g. keep i other g (only i),
)
  where
    id : ℕ
    id = request.operation_id

    new : UpdateOperation
    new = new_operation now request

    m' : Node
    m' = record (put_operation new n) { spawned = n.spawned ++ id ∷ [] }

    free : (n.spawned ≡ []) × (n.staging ≡ [])
    free = no_task n c.tasks (none_active n a)

    only : Only id n m'
    only = Only-change_directory id (λ (d : Directory). record d { operation = holds new }) n

    file : file_at id m' ≡ holds new
    file = file_at-change_directory id (λ (d : Directory). record d { operation = holds new }) n

    keep :
        (i : ℕ) (other : UpdateOperation)
        → file_at i n ≡ holds other
        → (i ≡ id) ⊎ (file_at i m' ≡ file_at i n)
        → Records i other.request m'
    keep i other g (inr h) = (other, h ∙ g, refl)
    keep i other g (inl h) = cc (ap (λ (j : ℕ). file_at j n) h)
