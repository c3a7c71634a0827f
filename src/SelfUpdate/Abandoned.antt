-- ===== src/SelfUpdate/Abandoned.antt =====
-- An operation of src/self_update.rs that a restart of the server abandons while it is staged.
use mathlib.Core.Path.{subst}
use update_delivery_system.Prelude.{ℕ, ◌≡◌, refl, sym, ap, ◌∙◌, ◌⊎◌, inl, inr, String, false, []}
use update_delivery_system.Errors.{Result}
use update_delivery_system.SelfUpdate.{
  Platform, StartUpdateRequest, UpdateOperation, queued, downloading, terminal,
}
use update_delivery_system.SelfUpdate.Manager.{holds, Node, UpdateManager, file_at, start}
use update_delivery_system.SelfUpdate.Pending.{apply_pending}
use update_delivery_system.SelfUpdate.Steps.{
  Step, start_requested, stage_begins, stage_ends, helper_runs, server_restarts, Reach, here, next,
  IsActive,
}
use update_delivery_system.SelfUpdate.Tasks.{Started, start-Started, none_active}
use update_delivery_system.SelfUpdate.Evolution.{Evolves, apply_pending-Evolves}
use update_delivery_system.SelfUpdate.Activity.{no_tasks}

-- The operation waits for a task, and there is none.
record IsAbandoned (id : ℕ) (operation : UpdateOperation) (n : Node) : Type 0 where
  pub none_spawned : n.spawned ≡ []
  pub none_staging : n.staging ≡ []
  pub recorded : file_at id n ≡ holds operation
  pub waits : (operation.status ≡ queued) ⊎ (operation.status ≡ downloading)

module _ (p : Platform) (manager : UpdateManager) (id : ℕ) (operation : UpdateOperation) where
  IsAbandoned-IsActive : (n : Node) → IsAbandoned id operation n → IsActive id n
  unfolding terminal
  IsAbandoned-IsActive n a = (operation, a.recorded, go a.waits)
    where
      go :
          (operation.status ≡ queued) ⊎ (operation.status ≡ downloading)
          → terminal operation.status ≡ false
      go (inl e) = ap terminal e
      go (inr e) = ap terminal e

  start_unchanged :
      (n : Node) (io : Result (Unit {0})) (now : String) (request : StartUpdateRequest)
      → IsAbandoned id operation n
      → (start p manager io now request n).1 ≡ n
  start_unchanged n io now request a = go (start-Started p manager io now request n)
    where
      go :
          Started now request n (start p manager io now request n)
          → (start p manager io now request n).1 ≡ n
      go (inl e) = e
      go (inr (m, e, q)) = elim (none_active n e id (IsAbandoned-IsActive n a)) [ ]

  Step-IsAbandoned :
      {n m : Node} → Step p manager n m → IsAbandoned id operation n → IsAbandoned id operation m
  unfolding apply_pending
  Step-IsAbandoned (start_requested io now request) a =
      subst (IsAbandoned id operation) (sym (start_unchanged _ io now request a)) a
  Step-IsAbandoned (stage_begins io failure now before j after e) a =
      elim (no_tasks j before after (sym a.none_spawned ∙ e)) [ ]
  Step-IsAbandoned (stage_ends net io now before o after e) a =
      elim (no_tasks o before after (sym a.none_staging ∙ e)) [ ]
  Step-IsAbandoned {n} (helper_runs io removes now h) a = record {
    none_spawned = a.none_spawned;
    none_staging = a.none_staging;
    recorded = same a.waits (apply_pending-Evolves p io removes now n h id);
    waits = a.waits;
  }
    where
      same :
          (operation.status ≡ queued) ⊎ (operation.status ≡ downloading)
          → Evolves (file_at id n) (file_at id (apply_pending p io removes now n h).1)
          → file_at id (apply_pending p io removes now n h).1 ≡ holds operation
      same w (inl k) = k ∙ a.recorded
      same (inl q) (inr (before, f, s, k)) = cc a.recorded
      same (inr q) (inr (before, f, s, k)) = cc a.recorded
  Step-IsAbandoned server_restarts a = record {
    none_spawned = refl;
    none_staging = refl;
    recorded = a.recorded;
    waits = a.waits;
  }

  Reach-IsAbandoned :
      {n m : Node} → Reach p manager n m → IsAbandoned id operation n → IsAbandoned id operation m
  Reach-IsAbandoned here a = a
  Reach-IsAbandoned (next r s) a = Step-IsAbandoned s (Reach-IsAbandoned r a)

-- A restart of the server while an operation is queued or downloading abandons it: in every state
-- that the node reaches from there, further restarts and helper runs included, the operation is
-- recorded as it was, and no request starts an update.
pub restart_blocks_updates :
    (p : Platform) (manager : UpdateManager) (id : ℕ) (operation : UpdateOperation) (n m : Node)
    (io : Result (Unit {0})) (now : String) (request : StartUpdateRequest)
    → file_at id n ≡ holds operation
    → (operation.status ≡ queued) ⊎ (operation.status ≡ downloading)
    → Reach p manager (record n { spawned = []; staging = [] }) m
    → (file_at id m ≡ holds operation) × ((start p manager io now request m).1 ≡ m)
restart_blocks_updates p manager id operation n m io now request e w r =
    (a.recorded, start_unchanged p manager id operation m io now request a)
  where
    a : IsAbandoned id operation m
    a =
        Reach-IsAbandoned p manager id operation r
          (record { none_spawned = refl; none_staging = refl; recorded = e; waits = w })
