-- ===== src/SelfUpdate/Steps.antt =====
-- The steps of a node and its helper around src/self_update.rs: requests are accepted, staging tasks
-- begin and end in any order, the helper runs, and the server restarts, which ends its tasks.
use update_delivery_system.Prelude.{ℕ, ◌≡◌, ◌⊎◌, String, Bool, false, List, [], ◌∷◌, ◌++◌}
use update_delivery_system.Errors.{Result}
use update_delivery_system.SelfUpdate.{
  Platform, StartUpdateRequest, UpdateOperation, queued, downloading, terminal,
}
use update_delivery_system.SelfUpdate.Releases.{Network}
use update_delivery_system.SelfUpdate.Manager.{holds, Node, UpdateManager, file_at, start}
use update_delivery_system.SelfUpdate.Staging.{StageIo, begin_stage, finish_stage}
use update_delivery_system.SelfUpdate.Helper.{Host, HelperIo}
use update_delivery_system.SelfUpdate.Pending.{apply_pending}

abbrev pub empty_node : Node
empty_node = record { operations = []; markers = []; spawned = []; staging = [] }

module _ (p : Platform) (manager : UpdateManager) where
  pub data Step (n : Node) : Node → Type 0 where
    start_requested :
        (io : Result (Unit {0})) (now : String) (request : StartUpdateRequest)
        → Step n (start p manager io now request n).1
    stage_begins :
        (io failure : Result (Unit {0})) (now : String) (before : List ℕ) (id : ℕ) (after : List ℕ)
        → n.spawned ≡ before ++ id ∷ after
        → Step n (begin_stage io failure now id (record n { spawned = before ++ after }))
    stage_ends :
        (net : Network) (io : StageIo) (now : String) (before : List UpdateOperation)
        (operation : UpdateOperation) (after : List UpdateOperation)
        → n.staging ≡ before ++ operation ∷ after
        → Step n (finish_stage p net io now operation (record n { staging = before ++ after }))
    helper_runs :
        (io : ℕ → HelperIo) (removes : ℕ → Bool) (now : String) (h : Host)
        → Step n (apply_pending p io removes now n h).1
    server_restarts : Step n (record n { spawned = []; staging = [] })

  pub data Reach (m : Node) : Node → Type 0 where
    here : Reach m m
    next : {n o : Node} → Reach m n → Step n o → Reach m o

-- An operation that prevents another.
abbrev pub IsActive : ℕ → Node → Type 0
IsActive id n =
    (operation : UpdateOperation) × (file_at id n ≡ holds operation)
    × (terminal operation.status ≡ false)

-- Each file is named by the identifier of its request.
abbrev pub IsKeyed : Node → Type 0
IsKeyed n =
    (id : ℕ) (operation : UpdateOperation)
    → file_at id n ≡ holds operation
    → operation.request.operation_id ≡ id

-- The tasks: none, or one that has the active operation to itself.
abbrev pub TasksFit : Node → Type 0
TasksFit n =
    ((n.spawned ≡ []) × (n.staging ≡ []))
    ⊎ ((id : ℕ) × (operation : UpdateOperation) × (n.spawned ≡ id ∷ [])
        × (n.staging ≡ [])
        × (file_at id n ≡ holds operation)
        × (operation.status ≡ queued))
    ⊎ ((operation : UpdateOperation) × (n.spawned ≡ [])
        × (n.staging ≡ operation ∷ [])
        × (file_at operation.request.operation_id n ≡ holds operation)
        × (operation.status ≡ downloading))

abbrev pub AtMostOne : Node → Type 0
AtMostOne n = (i j : ℕ) → IsActive i n → IsActive j n → i ≡ j

pub record IsConsistent (n : Node) : Type 0 where
  pub keyed : IsKeyed n
  pub tasks : TasksFit n
  pub single : AtMostOne n
