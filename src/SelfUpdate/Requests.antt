-- ===== src/SelfUpdate/Requests.antt =====
-- The requests of src/self_update.rs over all steps of a node: no two operations are active, a repeated
-- request has one effect, and an operation that a restart abandons.
use mathlib.Core.Path.{subst}
use update_delivery_system.Prelude.{
  ℕ, ◌≡◌, ◌≢◌, refl, sym, ap, ◌∙◌, ◌⊎◌, inl, inr, ◌↔◌, eq_iff, String, Bool, true, false, Option,
  none, some, arith,
}
use update_delivery_system.Prelude.BTreeMap.{get}
use update_delivery_system.Errors.{Result, ok, err, conflict}
use update_delivery_system.SelfUpdate.{Platform, StartUpdateRequest, UpdateOperation}
use update_delivery_system.SelfUpdate.Manager.{
  OperationFile, missing, unreadable, malformed, holds, Directory, Node, UpdateManager, file_at,
  active_operation, put_operation, new_operation, write_next, write, spawn_stage, repeated,
  start_inactive, start, read_file, same_request, check_start, start_checked, start_read,
}
use update_delivery_system.SelfUpdate.Steps.{
  empty_node, Step, start_requested, stage_begins, stage_ends, helper_runs, server_restarts, Reach,
  here, next, IsActive, IsConsistent,
}
use update_delivery_system.SelfUpdate.Records.{file_at-change_directory, Records}
use update_delivery_system.SelfUpdate.Tasks.{Started, start-Started}
use update_delivery_system.SelfUpdate.Settling.{Keeps, Good, started-Good}
use update_delivery_system.SelfUpdate.Activity.{begin-Good, finish-Good, helper-Good}

module _ (p : Platform) (manager : UpdateManager) where
  start-Good :
      (n : Node) (io : Result (Unit {0})) (now : String) (request : StartUpdateRequest)
      → IsConsistent n
      → Good n (start p manager io now request n).1
  start-Good n io now request c = go (start-Started p manager io now request n)
    where
      go :
          Started now request n (start p manager io now request n)
          → Good n (start p manager io now request n).1
      go (inl e) = subst (Good n) (sym e) (c, λ i operation f. (operation, f, refl))
      go (inr (f, a, e)) = started-Good now request n (start p manager io now request n).1 c f a e

  Step-Good : {n m : Node} → Step p manager n m → IsConsistent n → Good n m
  Step-Good (start_requested io now request) c = start-Good _ io now request c
  Step-Good (stage_begins io failure now before id after e) c =
      begin-Good _ c io failure now before id after e
  Step-Good (stage_ends net io now before operation after e) c =
      finish-Good _ c p net io now before operation after e
  Step-Good (helper_runs io removes now h) c = helper-Good _ c p io removes now h
  Step-Good server_restarts c = (
    record { keyed = c.keyed; tasks = inl (refl, refl); single = c.single },
    λ i operation f. (operation, f, refl),
  )

  pub Reach-IsConsistent : {n m : Node} → Reach p manager n m → IsConsistent n → IsConsistent m
  Reach-IsConsistent here c = c
  Reach-IsConsistent (next r s) c = (Step-Good s (Reach-IsConsistent r c)).0

  pub Reach-Keeps : {n m : Node} → Reach p manager n m → IsConsistent n → Keeps n m
  Reach-Keeps here c i operation e = (operation, e, refl)
  Reach-Keeps (next {n = o} r s) c i operation e =
      let (after, f, q) = Reach-Keeps r c i operation e in
      let (last, g, u) = (Step-Good s (Reach-IsConsistent r c)).1 i after f in (last, g, u ∙ q)

empty-IsConsistent : IsConsistent empty_node
unfolding get
empty-IsConsistent = record {
  keyed = λ i operation e. cc;
  tasks = inl (refl, refl);
  single = λ i j (operation, e, t). cc;
}

-- From a node without operations, whatever requests, staging tasks, helper runs and restarts
-- follow, at most one operation is active.
pub at_most_one_active :
    (p : Platform) (manager : UpdateManager) (n : Node) (i j : ℕ)
    → Reach p manager empty_node n
    → IsActive i n
    → IsActive j n
    → i ≡ j
at_most_one_active p manager n i j r a b =
    (Reach-IsConsistent p manager r empty-IsConsistent).single i j a b

same_request_lem : (a b : StartUpdateRequest) → (same_request a b ≡ true) ↔ (a ≡ b)
same_request_lem a b = ground (arith, eq_iff a.version b.version)

-- What `start` answers for a recorded request, if it passes the checks.
abbrev Repeats : Platform → UpdateManager → StartUpdateRequest → Node → Type 0
Repeats p manager request n =
    (io : Result (Unit {0})) (now : String)
    → (operation : UpdateOperation) × (operation.request ≡ request)
      × (start p manager io now request n ≡ (ok operation, n))

start_checked_ok :
    (p : Platform) (manager : UpdateManager) (io : Result (Unit {0})) (now : String)
    (request : StartUpdateRequest) (n m : Node) (operation : UpdateOperation)
    → start p manager io now request n ≡ (ok operation, m)
    → check_start p manager request ≡ ok tt
unfolding start
start_checked_ok p manager io now request n m operation h =
    go (check_start p manager request) refl h
  where
    go :
        (r : Result (Unit {0}))
        → check_start p manager request ≡ r
        → start_checked io now request n r ≡ (ok operation, m)
        → check_start p manager request ≡ ok tt
    go (err e) k g = cc
    go (ok _) k g = k

recorded_start :
    (p : Platform) (manager : UpdateManager) (io : Result (Unit {0})) (now : String)
    (request : StartUpdateRequest) (n : Node) (operation : UpdateOperation)
    → check_start p manager request ≡ ok tt
    → file_at request.operation_id n ≡ holds operation
    → start p manager io now request n
      ≡ repeated operation n (same_request operation.request request)
unfolding start
recorded_start p manager io now request n operation k e =
    ap (start_checked io now request n) k
    ∙ ap (λ (f : OperationFile). start_read io now request n (read_file f)) e

-- A request that is answered with an operation is recorded.
start_records :
    (p : Platform) (manager : UpdateManager) (io : Result (Unit {0})) (now : String)
    (request : StartUpdateRequest) (n m : Node) (operation : UpdateOperation)
    → start p manager io now request n ≡ (ok operation, m)
    → Records request.operation_id request m
unfolding start
start_records p manager io now request n m operation h = checked (check_start p manager request) h
  where
    new : UpdateOperation
    new = new_operation now request

    written :
        (r : Result (Unit {0}))
        → spawn_stage new (write_next (ok tt, n) r (put_operation new)) ≡ (ok operation, m)
        → Records request.operation_id request m
    written (err e) g = cc
    written (ok _) g =
        subst (Records request.operation_id request)
          (ap (λ (a : Result UpdateOperation × Node). a.1) g)
          (
            new,
            file_at-change_directory request.operation_id
                (λ (d : Directory). record d { operation = holds new }) n,
            refl,
          )

    inactive :
        (r : Result (Option UpdateOperation))
        → start_inactive io now request n r ≡ (ok operation, m)
        → Records request.operation_id request m
    inactive (err e) g = cc
    inactive (ok (some active)) g = cc
    inactive (ok none) g = unfold write in written io g

    found :
        (existing : UpdateOperation)
        → file_at request.operation_id n ≡ holds existing
        → (t : Bool) → same_request existing.request request ≡ t
        → repeated existing n t ≡ (ok operation, m)
        → Records request.operation_id request m
    found existing e false q g = cc
    found existing e true q g =
        subst (Records request.operation_id request)
          (ap (λ (a : Result UpdateOperation × Node). a.1) g)
          (existing, e, (same_request_lem existing.request request).0 q)

    at_file :
        (f : OperationFile)
        → file_at request.operation_id n ≡ f
        → start_read io now request n (read_file f) ≡ (ok operation, m)
        → Records request.operation_id request m
    at_file missing e g = inactive (active_operation n.operations) g
    at_file (unreadable x) e g = cc
    at_file (malformed x) e g = cc
    at_file (holds existing) e g = found existing e (same_request existing.request request) refl g

    checked :
        (r : Result (Unit {0}))
        → start_checked io now request n r ≡ (ok operation, m)
        → Records request.operation_id request m
    checked (err e) g = cc
    checked (ok _) g = at_file (file_at request.operation_id n) refl g

-- Once a request is answered with an operation, in every state that the node reaches from there a
-- request with the same identifier that passes the first checks changes nothing: the same request
-- is answered with the operation as it then stands, which still has that request, and any other
-- request is answered with a conflict.
pub start_is_idempotent :
    (p : Platform) (manager : UpdateManager) (io : Result (Unit {0})) (now : String)
    (request : StartUpdateRequest) (n m o : Node) (operation : UpdateOperation)
    (io' : Result (Unit {0})) (now' : String) (other : StartUpdateRequest)
    → Reach p manager empty_node n
    → start p manager io now request n ≡ (ok operation, m)
    → Reach p manager m o
    → other.operation_id ≡ request.operation_id
    → check_start p manager other ≡ ok tt
    → (after : UpdateOperation) × (after.request ≡ request)
      × (((other ≡ request) × (start p manager io' now' other o ≡ (ok after, o)))
          ⊎ ((other ≢ request)
              × (start p manager io' now' other o
                  ≡ (err (conflict "operation ID was already used with different input"), o))))
start_is_idempotent p manager io now request n m o operation io' now' other r h s e k =
    (after, t, answer (same_request after.request other) refl)
  where
    consistent : IsConsistent m
    consistent =
        subst IsConsistent (ap (λ (a : Result UpdateOperation × Node). a.1) h)
          (start-Good p manager n io now request
            (Reach-IsConsistent p manager r empty-IsConsistent)).0

    first : Records request.operation_id request m
    first = start_records p manager io now request n m operation h

    last : Records request.operation_id first.0.request o
    last = Reach-Keeps p manager s consistent request.operation_id first.0 first.1

    after : UpdateOperation
    after = last.0

    t : after.request ≡ request
    t = last.2 ∙ first.2

    answers : start p manager io' now' other o ≡ repeated after o (same_request after.request other)
    answers =
        recorded_start p manager io' now' other o after k
          (subst (λ (i : ℕ). file_at i o ≡ holds after) (sym e) last.1)

    answer :
        (b : Bool)
        → same_request after.request other ≡ b
        → ((other ≡ request) × (start p manager io' now' other o ≡ (ok after, o)))
          ⊎ ((other ≢ request)
              × (start p manager io' now' other o
                  ≡ (err (conflict "operation ID was already used with different input"), o)))
    answer true q =
        inl
          (sym ((same_request_lem after.request other).0 q) ∙ t, answers ∙ ap (repeated after o) q)
    answer false q = inr (
      λ d. cc ((same_request_lem after.request other).1 (t ∙ sym d)),
      answers ∙ ap (repeated after o) q,
    )
