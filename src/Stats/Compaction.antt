-- ===== src/Stats/Compaction.antt =====
-- The compaction of src/stats.rs: where it stops and where it ends.
use mathlib.Core.Path.{◌≡◌, refl, sym, ap, ◌∙◌}
use update_delivery_system.Prelude.{ℕ, String, true, false, is_some, List, [], ◌∷◌, arith, eq_iff}
use update_delivery_system.Prelude.BTreeMap.{get, remove, keys}
use update_delivery_system.Prelude.BTreeMap.Keys.{text_ord}
use update_delivery_system.Stats.Files.{
  RollupState, StatsActor, Triple, Triple-if, Triple-bind, Triple-change, Triple-pure, Triple-gets,
}
use update_delivery_system.Stats.Actor.{
  rollup_state, remove_included, clear_included, finish_included, finish_interrupted_compaction,
}
use update_delivery_system.Stats.Counters.{Counter}
use update_delivery_system.Stats.Sums.{remove_all}
use update_delivery_system.Stats.Recorded.{
  recorded, recorded_in, recorded-remove_delta, recorded-clear_included,
}
use update_delivery_system.Stats.Batches.{at_rest, Rest, Stopped}

remove-absent :
    {V : Type 0} (k : String) (m : List (String × V)) → is_some (get k m) ≡ false → remove k m ≡ m
unfolding get remove
remove-absent k [] e = refl
remove-absent k ((j, v) ∷ m) e = ground (arith, remove-absent k m)

-- Every name of a list is a key of the set.
abbrev AllIn : List (String × Unit {0}) → List String → Type 0
AllIn set [] = Unit
AllIn set (k ∷ ks) = (is_some (get k set) ≡ true) × AllIn set ks

AllIn-cons :
    (k : String) (set : List (String × Unit {0})) (ks : List String)
    → AllIn set ks
    → AllIn ((k, tt) ∷ set) ks
unfolding get
AllIn-cons k set [] h = tt
AllIn-cons k set (j ∷ ks) (e, h) = (ground arith, AllIn-cons k set ks h)

AllIn-keys : (set : List (String × Unit {0})) → AllIn set (keys set)
unfolding get
AllIn-keys [] = tt
AllIn-keys ((k, tt) ∷ set) =
    (ground (arith, eq_iff k k), AllIn-cons k set (keys set) (AllIn-keys set))

module _ (μ : Counter) (channel : String) (amount : ℕ) where
  -- No batch is left; deltas may be in the rollup already.
  abbrev pub Compacted : StatsActor → Type 0
  Compacted w = (recorded μ channel w ≡ amount) × (w.processing ≡ [])

  -- The rollup is `state`, and what is left of its included deltas is to be removed.
  record Clearing (state : RollupState) (ids : List String) (w : StatsActor) : Type 0 where
    pub rest : Compacted w
    pub is_rollup : rollup_state w ≡ state
    pub included : AllIn state.included_deltas ids
    pub cleared :
        recorded_in μ channel
          (record state { included_deltas = [] })
          (remove_all ids w.deltas)
          []
          w.events
        ≡ amount

  recorded_here :
      (state : RollupState) (w : StatsActor)
      → Compacted w
      → rollup_state w ≡ state
      → recorded_in μ channel state w.deltas [] w.events ≡ amount
  recorded_here state w (r, p) e =
      ap (λ b. recorded_in μ channel state w.deltas b w.events) (sym p)
      ∙ ap (λ t. recorded_in μ channel t w.deltas w.processing w.events) (sym e)
      ∙ r

  remove-Clearing :
      (state : RollupState) (id : String) (ids : List String) (w : StatsActor)
      → Clearing state (id ∷ ids) w
      → Clearing state ids (record w { deltas = remove id w.deltas })
  remove-Clearing state id ids w c = record {
    rest = (
      ap (λ t. recorded_in μ channel t (remove id w.deltas) w.processing w.events) c.is_rollup
          ∙ ap (λ b. recorded_in μ channel state (remove id w.deltas) b w.events) c.rest.1
          ∙ recorded-remove_delta μ channel state w.deltas id w.events c.included.0
          ∙ recorded_here state w c.rest c.is_rollup,
      c.rest.1,
    );
    is_rollup = c.is_rollup;
    included = c.included.1;
    cleared = c.cleared;
  }

  keep-Clearing :
      (state : RollupState) (id : String) (ids : List String) (w : StatsActor)
      → Clearing state (id ∷ ids) w
      → is_some (get id w.deltas) ≡ false
      → Clearing state ids w
  keep-Clearing state id ids w c e = record {
    rest = c.rest;
    is_rollup = c.is_rollup;
    included = c.included.1;
    cleared =
        ap
          (λ ds.
            recorded_in μ channel (record state { included_deltas = [] }) (remove_all ids ds) []
              w.events)
          (sym (remove-absent id w.deltas e))
        ∙ c.cleared;
  }

  pub stop-Compacted : (w : StatsActor) → Compacted w → Stopped μ channel amount w
  stop-Compacted w (r, p) = (r, at_rest p)

  Triple-remove_included :
      (state : RollupState) (ids : List String)
      → Triple
          (Clearing state ids)
          (remove_included ids)
          (λ _. Clearing state [])
          (Stopped μ channel amount)
  unfolding remove_included
  Triple-remove_included state [] = Triple-pure tt (λ w c. c)
  Triple-remove_included state (id ∷ ids) =
      Triple-bind (λ exists w. Clearing state (id ∷ ids) w × (is_some (get id w.deltas) ≡ exists)) _
        _ (Triple-gets _ (λ w c. (c, refl)))
        (λ exists.
          Triple-bind (λ _. Clearing state ids) _ _
            (Triple-if exists _ _
              (λ _.
                Triple-change _ (λ w c. stop-Compacted w c.0.rest)
                  (λ w c. remove-Clearing state id ids w c.0))
              (λ e. Triple-pure tt (λ w c. keep-Clearing state id ids w c.0 (c.1 ∙ e))))
            (λ _. Triple-remove_included state ids))

  Triple-clear_included :
      (state : RollupState)
      → Triple
          (Clearing state [])
          (clear_included state)
          (λ _. Rest μ channel amount)
          (Stopped μ channel amount)
  unfolding clear_included
  Triple-clear_included state =
      Triple-change _ (λ w c. stop-Compacted w c.rest)
        (λ w c. (
          ap
                (λ b.
                  recorded_in μ channel (record state { included_deltas = [] }) w.deltas b w.events)
                c.rest.1
              ∙ c.cleared,
          (c.rest.1, refl),
        ))

  Triple-finish_included :
      (state : RollupState) (included : List (String × Unit {0}))
      → state.included_deltas ≡ included
      → Triple
          (Clearing state (keys included))
          (finish_included state included)
          (λ _. Rest μ channel amount)
          (Stopped μ channel amount)
  unfolding finish_included
  Triple-finish_included state [] e =
      Triple-pure tt (λ w c. (c.rest.0, (c.rest.1, ap (λ s. s.included_deltas) c.is_rollup ∙ e)))
  Triple-finish_included state (i ∷ included) e =
      Triple-bind (λ _. Clearing state []) _ _ (Triple-remove_included state (keys (i ∷ included)))
        (λ _. Triple-clear_included state)

  start-Clearing :
      (w : StatsActor)
      → Compacted w
      → Clearing (rollup_state w) (keys (rollup_state w).included_deltas) w
  start-Clearing w c = record {
    rest = c;
    is_rollup = refl;
    included = AllIn-keys (rollup_state w).included_deltas;
    cleared =
        recorded-clear_included μ channel (rollup_state w) w.deltas w.events
        ∙ recorded_here (rollup_state w) w c refl;
  }

  pub Triple-finish_interrupted_compaction :
      Triple Compacted finish_interrupted_compaction
        (λ _. Rest μ channel amount)
        (Stopped μ channel amount)
  unfolding finish_interrupted_compaction
  Triple-finish_interrupted_compaction =
      Triple-bind (λ state. Clearing state (keys state.included_deltas)) _ _
        (Triple-gets _ start-Clearing)
        (λ state. Triple-finish_included state state.included_deltas refl)
