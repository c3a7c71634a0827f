-- ===== src/SelfUpdate/Records.antt =====
-- The records of the operations of src/self_update.rs under the writes of the manager.
use mathlib.Core.Path.{subst}
use update_delivery_system.Prelude.{
  ℕ, ◌≡◌, refl, sym, ap, ◌∙◌, ◌⊎◌, inl, inr, String, Bool, true, false, ◌==◌, none, some, List, [],
  ◌∷◌, ==_iff, arith, if◌then◌else◌,
}
use update_delivery_system.Prelude.BTreeMap.{get, get-insert}
use update_delivery_system.Prelude.BTreeMap.Keys.{id_ord}
use update_delivery_system.Errors.{Result, ok, err}
use update_delivery_system.SelfUpdate.{StartUpdateRequest, UpdateOperation, terminal}
use update_delivery_system.SelfUpdate.Manager.{
  holds, Directory, Node, directory, file_at, get_operation, change_directory, put_operation,
  write_next, write, failed_with, fail, active_operation,
}
use update_delivery_system.SelfUpdate.Steps.{IsActive, IsKeyed, AtMostOne}

directory-change_directory :
    (id i : ℕ) (f : Directory → Directory) (n : Node)
    → directory i (change_directory id f n)
      ≡ (if id == i then f (directory id n) else directory i n)
directory-change_directory id i f n =
    ground (arith, get-insert id i (f (directory id n)) n.operations)

-- Nothing but the file of one operation differs.
abbrev pub Only : ℕ → Node → Node → Type 0
Only id n m = (j : ℕ) → (j ≡ id) ⊎ (file_at j m ≡ file_at j n)

pub Only-trans : (id : ℕ) (n m o : Node) → Only id n m → Only id m o → Only id n o
Only-trans id n m o f g j = go (f j) (g j)
  where
    go :
        (j ≡ id) ⊎ (file_at j m ≡ file_at j n)
        → (j ≡ id) ⊎ (file_at j o ≡ file_at j m)
        → (j ≡ id) ⊎ (file_at j o ≡ file_at j n)
    go (inl e) b = inl e
    go a (inl e) = inl e
    go (inr e) (inr g) = inr (g ∙ e)

pub Only-change_directory :
    (id : ℕ) (f : Directory → Directory) (n : Node) → Only id n (change_directory id f n)
Only-change_directory id f n j = go (id == j) refl
  where
    go : (t : Bool) → (id == j) ≡ t → (j ≡ id) ⊎ (file_at j (change_directory id f n) ≡ file_at j n)
    go true e = inl (sym ((==_iff id j).0 e))
    go false e = inr (
        ap (λ (d : Directory). d.operation)
          (directory-change_directory id j f n
            ∙ ap (λ t. if t then f (directory id n) else directory j n) e))

pub file_at-change_directory :
    (id : ℕ) (f : Directory → Directory) (n : Node)
    → file_at id (change_directory id f n) ≡ (f (directory id n)).operation
file_at-change_directory id f n =
    ap (λ (d : Directory). d.operation)
      (directory-change_directory id id f n
        ∙ ap (λ t. if t then f (directory id n) else directory id n) ((==_iff id id).1 refl))

pub get_operation_lem :
    (id : ℕ) (n : Node) (operation : UpdateOperation)
    → file_at id n ≡ holds operation
    → get_operation id n ≡ ok operation
unfolding get_operation
get_operation_lem id n operation e = ground (arith, e)

-- The record of an operation, with its request.
abbrev pub Records : ℕ → StartUpdateRequest → Node → Type 0
Records id request n =
    (operation : UpdateOperation) × (file_at id n ≡ holds operation) × (operation.request ≡ request)

-- Of what `n` is, nothing but the record of the request changes, and no task is left.
pub record IsSettled (request : StartUpdateRequest) (n m : Node) : Type 0 where
  pub none_spawned : m.spawned ≡ []
  pub none_staging : m.staging ≡ []
  pub only : Only request.operation_id n m
  pub recorded : Records request.operation_id request m

pub put_operation-IsSettled :
    (request : StartUpdateRequest) (n m : Node) (operation : UpdateOperation)
    → operation.request ≡ request
    → IsSettled request n m
    → IsSettled request n (put_operation operation m)
put_operation-IsSettled request n m operation e s = record {
  none_spawned = s.none_spawned;
  none_staging = s.none_staging;
  only = Only-trans request.operation_id n m (put_operation operation m) s.only (
      subst (λ (r : StartUpdateRequest). Only r.operation_id m (put_operation operation m)) e
        (Only-change_directory operation.request.operation_id
          (λ (d : Directory). record d { operation = holds operation }) m));
  recorded = (
    operation,
    subst
        (λ (r : StartUpdateRequest).
          file_at r.operation_id (put_operation operation m) ≡ holds operation)
        e
        (file_at-change_directory operation.request.operation_id
          (λ (d : Directory). record d { operation = holds operation }) m),
    e,
  );
}

pub write-IsSettled :
    (request : StartUpdateRequest) (n m : Node) (operation : UpdateOperation)
    (io : Result (Unit {0}))
    → operation.request ≡ request
    → IsSettled request n m
    → IsSettled request n (write io operation m).1
unfolding write
write-IsSettled request n m operation (err x) e s = s
write-IsSettled request n m operation (ok _) e s = put_operation-IsSettled request n m operation e s

pub fail-IsSettled :
    (request : StartUpdateRequest) (n m : Node) (io : Result (Unit {0})) (now message : String)
    → IsSettled request n m
    → IsSettled request n (fail io now request.operation_id message m)
unfolding fail
fail-IsSettled request n m io now message s =
    let (operation, e, q) = s.recorded in
    rw (get_operation_lem request.operation_id m operation e)
      (write-IsSettled request n m (failed_with now message operation) io q s)

pub write_next-IsSettled :
    (request : StartUpdateRequest) (n : Node) (done : Result (Unit {0}) × Node)
    (io : Result (Unit {0})) (f : Node → Node)
    → IsSettled request n done.1
    → ((m : Node) → IsSettled request n m → IsSettled request n (f m))
    → IsSettled request n (write_next done io f).1
write_next-IsSettled request n (err x, m) io f s k = s
write_next-IsSettled request n (ok _, m) (err x) f s k = s
write_next-IsSettled request n (ok _, m) (ok _) f s k = k m s

-- No operation but one can be active.
abbrev pub Sole : ℕ → Node → Type 0
Sole id n = (j : ℕ) → IsActive j n → j ≡ id

pub Sole-Only : (id : ℕ) (n m : Node) → Sole id n → Only id n m → Sole id m
Sole-Only id n m s o j (operation, e, t) = go (o j)
  where
    go : (j ≡ id) ⊎ (file_at j m ≡ file_at j n) → j ≡ id
    go (inl q) = q
    go (inr q) = s j (operation, sym q ∙ e, t)

pub AtMostOne-Sole : (id : ℕ) (n : Node) → Sole id n → AtMostOne n
AtMostOne-Sole id n s i j a b = s i a ∙ sym (s j b)

pub IsKeyed-Only :
    (id : ℕ) (n m : Node)
    → IsKeyed n
    → Only id n m
    → (operation : UpdateOperation) → file_at id m ≡ holds operation
    → operation.request.operation_id ≡ id
    → IsKeyed m
IsKeyed-Only id n m k o operation e q j other f = go (o j)
  where
    go : (j ≡ id) ⊎ (file_at j m ≡ file_at j n) → other.request.operation_id ≡ j
    go (inr g) = k j other (sym g ∙ f)
    go (inl g) = cc (ap (λ (i : ℕ). file_at i m) g)

-- A scan that finds no active operation has seen every directory.
pub active_operation-none :
    (entries : List (ℕ × Directory))
    → active_operation entries ≡ ok none
    → (i : ℕ) (d : Directory) (operation : UpdateOperation) → get i entries ≡ some d
    → d.operation ≡ holds operation
    → terminal operation.status ≡ true
unfolding active_operation get
active_operation-none [] h i d operation g e = cc
active_operation-none ((id, d') ∷ entries) h i d operation g e = ground (
  arith,
  λ (r : active_operation entries ≡ ok none). active_operation-none entries r i d operation,
)
