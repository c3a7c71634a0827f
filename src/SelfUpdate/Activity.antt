-- ===== src/SelfUpdate/Activity.antt =====
-- The tasks and the helper of src/self_update.rs keep a state consistent, and its requests recorded.
use mathlib.Core.Path.{subst}
use update_delivery_system.Prelude.{
  ℕ, ◌≡◌, refl, sym, ap, ◌∙◌, ◌⊎◌, inl, inr, String, Bool, List, [], ◌∷◌, ◌++◌, arith,
}
use update_delivery_system.Errors.{Result}
use update_delivery_system.SelfUpdate.{
  Platform, StartUpdateRequest, UpdateOperation, queued, downloading, terminal,
}
use update_delivery_system.SelfUpdate.Releases.{Network}
use update_delivery_system.SelfUpdate.Manager.{holds, Node, file_at}
use update_delivery_system.SelfUpdate.Staging.{StageIo, begin_stage, finish_stage}
use update_delivery_system.SelfUpdate.Helper.{Host, HelperIo}
use update_delivery_system.SelfUpdate.Pending.{apply_pending}
use update_delivery_system.SelfUpdate.Steps.{IsActive, TasksFit, IsConsistent}
use update_delivery_system.SelfUpdate.Records.{Records, IsSettled}
use update_delivery_system.SelfUpdate.Tasks.{Begun, begin_stage-Begun, finish_stage-IsSettled}
use update_delivery_system.SelfUpdate.Evolution.{Evolves, apply_pending-Evolves}
use update_delivery_system.SelfUpdate.Settling.{Good, Sole-active, settled-Good, Begun-Good}

-- A task of a list with one task is that task.
only_task :
    {A : Type 0} (x y : A) (before after : List A)
    → x ∷ [] ≡ before ++ y ∷ after
    → (y ≡ x) × (before ++ after ≡ [])
only_task x y [] after e = (cc, cc)
only_task x y (z ∷ []) after e = cc
only_task x y (z ∷ w ∷ before) after e = cc

pub no_tasks : {A : Type 0} (y : A) (before after : List A) → [] ≡ before ++ y ∷ after → ⊥
no_tasks y [] after e = cc
no_tasks y (z ∷ before) after e = cc

-- The tasks of the node before do not matter.
module _ (n : Node) (spawned : List ℕ) (staging : List UpdateOperation) (m : Node) where
  of_IsSettled :
      (request : StartUpdateRequest)
      → IsSettled request (record n { spawned = spawned; staging = staging }) m
      → IsSettled request n m
  of_IsSettled request t = record {
    none_spawned = t.none_spawned;
    none_staging = t.none_staging;
    only = t.only;
    recorded = t.recorded;
  }

  of_Begun :
      (operation : UpdateOperation)
      → Begun operation (record n { spawned = spawned; staging = staging }) m
      → Begun operation n m
  of_Begun operation (inl t) = inl (of_IsSettled operation.request t)
  of_Begun operation (inr t) = inr t

module _ (n : Node) (c : IsConsistent n) where
  pub begin-Good :
      (io failure : Result (Unit {0})) (now : String) (before : List ℕ) (id : ℕ) (after : List ℕ)
      → n.spawned ≡ before ++ id ∷ after
      → Good n (begin_stage io failure now id (record n { spawned = before ++ after }))
  unfolding terminal
  begin-Good io failure now before id after e = go c.tasks
    where
      at :
          (operation : UpdateOperation)
          → (id ≡ operation.request.operation_id) × (before ++ after ≡ [])
          → n.staging ≡ []
          → file_at operation.request.operation_id n ≡ holds operation
          → operation.status ≡ queued
          → Good n (begin_stage io failure now id (record n { spawned = before ++ after }))
      at operation (i, l) q f s =
          subst
            (λ (j : ℕ).
              Good n (begin_stage io failure now j (record n { spawned = before ++ after })))
            (sym i)
            (Begun-Good n
              (begin_stage io failure now operation.request.operation_id
                (record n { spawned = before ++ after }))
              operation c.keyed f
              (Sole-active n operation.request.operation_id c.single (operation, f, ap terminal s))
              (of_Begun n (before ++ after) n.staging
                (begin_stage io failure now operation.request.operation_id
                  (record n { spawned = before ++ after }))
                operation
                (begin_stage-Begun (record n { spawned = before ++ after }) operation f l q io
                  failure now)))

      go :
          TasksFit n
          → Good n (begin_stage io failure now id (record n { spawned = before ++ after }))
      go (inl (p, q)) = elim (no_tasks id before after (sym p ∙ e)) [ ]
      go (inr (inr (operation, p, r, f, s))) = elim (no_tasks id before after (sym p ∙ e)) [ ]
      go (inr (inl (j, operation, p, q, f, s))) =
          let k = c.keyed j operation f in
          let (i, l) = only_task j id before after (sym p ∙ e) in
          at operation (i ∙ sym k, l) q (subst (λ (x : ℕ). file_at x n ≡ holds operation) (sym k) f)
            s

  pub finish-Good :
      (p : Platform) (net : Network) (io : StageIo) (now : String) (before : List UpdateOperation)
      (operation : UpdateOperation) (after : List UpdateOperation)
      → n.staging ≡ before ++ operation ∷ after
      → Good n (finish_stage p net io now operation (record n { staging = before ++ after }))
  unfolding terminal
  finish-Good p net io now before operation after e = go c.tasks
    where
      at :
          (other : UpdateOperation)
          → (operation ≡ other) × (before ++ after ≡ [])
          → n.spawned ≡ []
          → file_at other.request.operation_id n ≡ holds other
          → other.status ≡ downloading
          → Good n (finish_stage p net io now operation (record n { staging = before ++ after }))
      at other (i, l) q f s =
          subst
            (λ (o : UpdateOperation).
              Good n (finish_stage p net io now o (record n { staging = before ++ after })))
            (sym i)
            (settled-Good n
              (finish_stage p net io now other (record n { staging = before ++ after })) other
              c.keyed f
              (Sole-active n other.request.operation_id c.single (other, f, ap terminal s))
              (of_IsSettled n n.spawned (before ++ after)
                (finish_stage p net io now other (record n { staging = before ++ after }))
                other.request
                (finish_stage-IsSettled (record n { staging = before ++ after }) other f q l p net
                  io now)))

      go :
          TasksFit n
          → Good n (finish_stage p net io now operation (record n { staging = before ++ after }))
      go (inl (q, r)) = elim (no_tasks operation before after (sym r ∙ e)) [ ]
      go (inr (inl (j, o, q, r, f, s))) = elim (no_tasks operation before after (sym r ∙ e)) [ ]
      go (inr (inr (other, q, r, f, s))) =
          at other (only_task other operation before after (sym r ∙ e)) q f s

  pub helper-Good :
      (p : Platform) (io : ℕ → HelperIo) (removes : ℕ → Bool) (now : String) (h : Host)
      → Good n (apply_pending p io removes now n h).1
  unfolding apply_pending terminal
  helper-Good p io removes now h = (
    record {
      keyed = λ i operation e. keyed i operation e (evolves i);
      tasks = tasks c.tasks;
      single = λ i j a b. c.single i j (active i a (evolves i)) (active j b (evolves j));
    },
    λ i operation e. keep i operation e (evolves i),
  )
    where
      m : Node
      m = (apply_pending p io removes now n h).1

      evolves : (i : ℕ) → Evolves (file_at i n) (file_at i m)
      evolves = apply_pending-Evolves p io removes now n h

      keyed :
          (i : ℕ) (operation : UpdateOperation)
          → file_at i m ≡ holds operation
          → Evolves (file_at i n) (file_at i m)
          → operation.request.operation_id ≡ i
      keyed i operation e (inl k) = c.keyed i operation (sym k ∙ e)
      keyed i operation e (inr (before, f, s, (after, g, r))) =
          ground (arith, c.keyed i before f, e, g, r)

      active : (i : ℕ) → IsActive i m → Evolves (file_at i n) (file_at i m) → IsActive i n
      active i (operation, e, t) (inl k) = (operation, sym k ∙ e, t)
      active i (operation, e, t) (inr (before, f, s, k)) = (before, f, ap terminal s)

      keep :
          (i : ℕ) (operation : UpdateOperation)
          → file_at i n ≡ holds operation
          → Evolves (file_at i n) (file_at i m)
          → Records i operation.request m
      keep i operation e (inl k) = (operation, k ∙ e, refl)
      keep i operation e (inr (before, f, s, (after, g, r))) = (after, g, cc)

      same :
          (i : ℕ) (operation : UpdateOperation)
          → file_at i n ≡ holds operation
          → (operation.status ≡ queued) ⊎ (operation.status ≡ downloading)
          → Evolves (file_at i n) (file_at i m)
          → file_at i m ≡ holds operation
      same i operation e q (inl k) = k ∙ e
      same i operation e (inl q) (inr (before, f, s, k)) = cc
      same i operation e (inr q) (inr (before, f, s, k)) = cc

      tasks : TasksFit n → TasksFit m
      tasks (inl t) = inl t
      tasks (inr (inl (id, operation, q, r, f, s))) =
          inr (inl (id, operation, q, r, same id operation f (inl s) (evolves id), s))
      tasks (inr (inr (operation, q, r, f, s))) = inr (
          inr (
            operation,
            q,
            r,
            same operation.request.operation_id operation f (inr s)
                (evolves operation.request.operation_id),
            s,
          ))
