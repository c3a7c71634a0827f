-- ===== src/Shutdown.antt =====
-- src/shutdown.rs: the transfers in flight, and the counters that sum up those that ended. A guard's
-- `drop` is `finish`. The two `Notify` fields are counts of the calls of `notify_waiters`: a
-- `Notified` future remembers the count at its creation, and is ready once the count has moved.
pub mod Accounting
pub mod Waiting
pub mod Draining
use update_delivery_system.Prelude.{
  ℕ, ◌+◌, String, Bool, true, false, Option, none, some, List, [], ◌∷◌, length, if◌then◌else◌,
}
use update_delivery_system.Prelude.Words.{wrapping_add}
use update_delivery_system.Prelude.BTreeMap.{get, insert, remove, values, map_values}
use update_delivery_system.Prelude.BTreeMap.Keys.{id_ord, text_ord}

pub data TransferKind : Type 0 where
  download upload : TransferKind

-- `Value` is the JSON value type of the fields.
pub record ActiveTransfer (Value : Type 0) : Type 0 where
  pub transfer_id : ℕ
  pub request_id : String
  pub kind : TransferKind
  pub fields : List (String × Value)
  pub forced : Bool

pub record TransferTotals : Type 0 where
  pub completed : ℕ
  pub aborted : ℕ

pub record ShutdownState (Value : Type 0) : Type 0 where
  pub draining : Bool
  pub active : List (ℕ × ActiveTransfer Value)
  pub completed : ℕ
  pub aborted : ℕ
  pub changed : ℕ
  pub drain_started : ℕ

pub record TransferGuard : Type 0 where
  pub transfer_id : ℕ

module _ {Value : Type 0} where
  -- `ShutdownState::default()`.
  abbrev pub default : ShutdownState Value
  default = record {
    draining = false;
    active = [];
    completed = 0;
    aborted = 0;
    changed = 0;
    drain_started = 0;
  }

  unfoldable pub begin_draining : ShutdownState Value → ShutdownState Value × Bool
  begin_draining s =
      if s.draining
      then (s, false)
      else (record s { draining = true; drain_started = s.drain_started + 1 }, true)

  abbrev pub is_draining : ShutdownState Value → Bool
  is_draining s = s.draining

  abbrev pub new_transfer : ℕ → TransferKind → String → List (String × Value) → ActiveTransfer Value
  new_transfer transfer_id kind request_id fields = record {
    transfer_id = transfer_id;
    request_id = request_id;
    kind = kind;
    fields = fields;
    forced = false;
  }

  -- The argument `transfer_id` is the fresh random identifier.
  unfoldable pub start_transfer :
      ℕ
      → TransferKind
      → String
      → List (String × Value)
      → ShutdownState Value
      → ShutdownState Value × TransferGuard
  start_transfer transfer_id kind request_id fields s = (
    record s {
      active = insert transfer_id (new_transfer transfer_id kind request_id fields) s.active;
      changed = s.changed + 1;
    },
    record { transfer_id = transfer_id },
  )

  unfoldable pub active_count : ShutdownState Value → ℕ
  active_count s = length s.active

  abbrev pub force : ActiveTransfer Value → ActiveTransfer Value
  force t = record t { forced = true }

  unfoldable pub mark_active_forced :
      ShutdownState Value → ShutdownState Value × List (ActiveTransfer Value)
  mark_active_forced s =
      let active = map_values force s.active in (record s { active = active }, values active)

  unfoldable pub totals : ShutdownState Value → TransferTotals
  totals s = record { completed = s.completed; aborted = s.aborted }

  with_field : String → Value → ActiveTransfer Value → ActiveTransfer Value
  with_field key value t = record t { fields = insert key value t.fields }

  set_in :
      ℕ → String → Value → ShutdownState Value → Option (ActiveTransfer Value) → ShutdownState Value
  set_in id key value s none = s
  set_in id key value s (some t) = record s { active = insert id (with_field key value t) s.active }

  unfoldable pub set_field :
      TransferGuard → String → Value → ShutdownState Value → ShutdownState Value
  unfolding set_in with_field
  set_field g key value s = set_in g.transfer_id key value s (get g.transfer_id s.active)

  finish_removed : ShutdownState Value → Option (ActiveTransfer Value) → ShutdownState Value
  finish_removed s none = s
  finish_removed s (some t) =
      if t.forced
      then record s { aborted = wrapping_add s.aborted 1; changed = s.changed + 1 }
      else record s { completed = wrapping_add s.completed 1; changed = s.changed + 1 }

  unfoldable pub finish : ℕ → ShutdownState Value → ShutdownState Value
  unfolding finish_removed
  finish id s = finish_removed (record s { active = remove id s.active }) (get id s.active)
