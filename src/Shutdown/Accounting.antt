-- ===== src/Shutdown/Accounting.antt =====
-- The counters account for every transfer that was started.
use update_delivery_system.Prelude.{
  ℕ, ◌+◌, ◌<◌, ◌^◌, String, ◌≡◌, refl, ◌∙◌, Option, none, some, List, [], ◌∷◌, length, arith,
}
use native.Mathlib.Nat.{add-zero, zero-add}
use update_delivery_system.Prelude.Words.{wrapping_add_small}
use update_delivery_system.Prelude.BTreeMap.{get, remove}
use update_delivery_system.Prelude.BTreeMap.Keys.{id_ord}
use update_delivery_system.Prelude.BTreeMap.Sorted.{
  IsSorted, insert-IsSorted, remove-IsSorted, map_values-IsSorted, length-insert, length-remove,
  length-map_values,
}
use update_delivery_system.Shutdown.{
  TransferKind, ActiveTransfer, ShutdownState, default, begin_draining, new_transfer,
  start_transfer, active_count, totals, force, mark_active_forced, set_field, finish, set_in,
  finish_removed, with_field,
}

-- One call on the shared state; `dropped` is the end of a guard.
pub data Call (Value : Type 0) : Type 0 where
  drain : Call Value
  start : ℕ → TransferKind → String → List (String × Value) → Call Value
  mark_forced : Call Value
  annotate : ℕ → String → Value → Call Value
  dropped : ℕ → Call Value

module _ {Value : Type 0} where
  unfoldable pub perform : Call Value → ShutdownState Value → ShutdownState Value
  perform drain s = (begin_draining s).0
  perform (start id kind request fields) s = (start_transfer id kind request fields s).0
  perform mark_forced s = (mark_active_forced s).0
  perform (annotate id key value) s = set_field (record { transfer_id = id }) key value s
  perform (dropped id) s = finish id s

  unfoldable pub run : List (Call Value) → ShutdownState Value → ShutdownState Value
  run [] s = s
  run (c ∷ cs) s = run cs (perform c s)

  abbrev pub starts : List (Call Value) → ℕ
  starts [] = 0
  starts (start id kind request fields ∷ cs) = starts cs + 1
  starts (drain ∷ cs) = starts cs
  starts (mark_forced ∷ cs) = starts cs
  starts (annotate id key value ∷ cs) = starts cs
  starts (dropped id ∷ cs) = starts cs

  -- What `Uuid::new_v4` is relied on for: no identifier is given out while it is in use.
  abbrev pub IsFresh : Call Value → ShutdownState Value → Type 0
  IsFresh (start id kind request fields) s = get id s.active ≡ none
  IsFresh drain s = Unit
  IsFresh mark_forced s = Unit
  IsFresh (annotate id key value) s = Unit
  IsFresh (dropped id) s = Unit

  abbrev pub AllFresh : List (Call Value) → ShutdownState Value → Type 0
  AllFresh [] s = Unit
  AllFresh (c ∷ cs) s = IsFresh c s × AllFresh cs (perform c s)

  pub record IsAccounted (started : ℕ) (s : ShutdownState Value) : Type 0 where
    pub sorted : IsSorted s.active
    pub counted : s.completed + s.aborted + length s.active ≡ started

  drain-IsAccounted :
      {n : ℕ} {s : ShutdownState Value} → IsAccounted n s → IsAccounted n (begin_draining s).0
  unfolding begin_draining
  drain-IsAccounted h = ground arith

  start-IsAccounted :
      (id : ℕ) (kind : TransferKind) (request : String) (fields : List (String × Value)) {n : ℕ}
      {s : ShutdownState Value}
      → get id s.active ≡ none
      → IsAccounted n s
      → IsAccounted (n + 1) (start_transfer id kind request fields s).0
  unfolding start_transfer
  start-IsAccounted id kind request fields {s = s} fresh h = record {
    sorted = insert-IsSorted id _ s.active h.sorted;
    counted = ground (
      arith,
      h.counted,
      length-insert id (new_transfer id kind request fields) s.active h.sorted,
    );
  }

  mark-IsAccounted :
      {n : ℕ} {s : ShutdownState Value} → IsAccounted n s → IsAccounted n (mark_active_forced s).0
  unfolding mark_active_forced
  mark-IsAccounted {s = s} h = record {
    sorted = map_values-IsSorted force s.active h.sorted;
    counted = omega (arith, h.counted, length-map_values force s.active);
  }

  annotate-IsAccounted :
      (id : ℕ) (key : String) (value : Value) {n : ℕ} {s : ShutdownState Value}
      → IsAccounted n s
      → IsAccounted n (set_field (record { transfer_id = id }) key value s)
  unfolding set_field
  annotate-IsAccounted id key value {n} {s} h = go (get id s.active) refl
    where
      go :
          (o : Option (ActiveTransfer Value))
          → get id s.active ≡ o
          → IsAccounted n (set_in id key value s o)
      go none e = h
      go (some t) e = record {
        sorted = insert-IsSorted id _ s.active h.sorted;
        counted =
            ground (arith, length-insert id (with_field key value t) s.active h.sorted, h.counted);
      }

  finish-IsAccounted :
      (id : ℕ) {n : ℕ} {s : ShutdownState Value}
      → n < 2 ^ 64
      → IsAccounted n s
      → IsAccounted n (finish id s)
  unfolding finish
  finish-IsAccounted id {n} {s} small h = go (get id s.active) refl
    where
      go :
          (o : Option (ActiveTransfer Value))
          → get id s.active ≡ o
          → IsAccounted n (finish_removed (record s { active = remove id s.active }) o)
      go none e = record {
        sorted = remove-IsSorted id s.active h.sorted;
        counted = ground (arith, length-remove id s.active h.sorted, h.counted);
      }
      go (some t) e = ground (
        arith,
        remove-IsSorted id s.active h.sorted,
        length-remove id s.active h.sorted,
        h.counted,
        wrapping_add_small s.completed 1,
        wrapping_add_small s.aborted 1,
      )

  perform-IsAccounted :
      (c : Call Value) {n : ℕ} {s : ShutdownState Value}
      → n + starts (c ∷ []) < 2 ^ 64
      → IsFresh c s
      → IsAccounted n s
      → IsAccounted (n + starts (c ∷ [])) (perform c s)
  unfolding perform
  perform-IsAccounted drain small fresh h = rw add-zero (drain-IsAccounted h)
  perform-IsAccounted (start id kind request fields) small fresh h =
      start-IsAccounted id kind request fields fresh h
  perform-IsAccounted mark_forced small fresh h = rw add-zero (mark-IsAccounted h)
  perform-IsAccounted (annotate id key value) small fresh h =
      rw add-zero (annotate-IsAccounted id key value h)
  perform-IsAccounted (dropped id) small fresh h =
      rw add-zero (finish-IsAccounted id (omega arith) h)

  starts-cons :
      (c : Call Value) (cs : List (Call Value)) → starts (c ∷ cs) ≡ starts (c ∷ []) + starts cs
  starts-cons drain cs = omega arith
  starts-cons (start id kind request fields) cs = omega arith
  starts-cons mark_forced cs = omega arith
  starts-cons (annotate id key value) cs = omega arith
  starts-cons (dropped id) cs = omega arith

  run-IsAccounted :
      (cs : List (Call Value)) {n : ℕ} {s : ShutdownState Value}
      → n + starts cs < 2 ^ 64
      → AllFresh cs s
      → IsAccounted n s
      → IsAccounted (n + starts cs) (run cs s)
  unfolding run
  run-IsAccounted [] small fresh h = rw add-zero h
  run-IsAccounted (c ∷ cs) {n} small (fresh, later) h =
      let split = starts-cons c cs in
      let e : n + starts (c ∷ cs) ≡ n + starts (c ∷ []) + starts cs = omega (arith, split) in
      rw e (
        run-IsAccounted cs (omega (arith, e)) later
          (perform-IsAccounted c (omega (arith, e)) fresh h))

-- After any calls on a new tracker, in any order, with fewer than 2^64 transfers and no identifier
-- given out while in use: the completed, the aborted and the active transfers together are exactly
-- the transfers started.
pub totals_account_for_starts :
    {Value : Type 0} (cs : List (Call Value))
    → starts cs < 2 ^ 64
    → AllFresh cs default
    → (totals (run cs default)).completed
        + (totals (run cs default)).aborted
        + active_count (run cs default)
      ≡ starts cs
unfolding totals active_count
totals_account_for_starts cs small fresh =
    (run-IsAccounted cs {n = 0} (omega arith) fresh
      (record { sorted = tt; counted = refl })).counted
    ∙ zero-add (starts cs)
