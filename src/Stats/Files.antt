-- ===== src/Stats/Files.antt =====
-- The directories of src/stats.rs, and computations on them that stop where the process dies or a
-- change of the file system fails.
use update_delivery_system.Prelude.{
  ℕ, zero, suc, ◌≡◌, ◌≢◌, refl, String, Bool, true, false, Option, none, some, List, if◌then◌else◌,
}
use update_delivery_system.Stats.{StatsEvent, Totals}

-- The files of a directory with events; `none` is a file that cannot be read or parsed.
abbrev pub EventFiles : Type 0
EventFiles = List (String × Option StatsEvent)

-- A `BTreeSet` is a `BTreeMap` to the unit type.
pub record RollupState : Type 0 where
  pub channels : Totals
  pub included_deltas : List (String × Unit {0})

pub record StatsConfig : Type 0 where
  pub queue_capacity : ℕ
  pub max_pending_events : ℕ
  pub rollup_trigger_events : ℕ
  pub rollup_interval_seconds : ℕ

-- The directories, with the file of the rollup if there is one, and the fields of the actor. The
-- actor alone writes these directories.
pub record StatsActor : Type 0 where
  pub events : EventFiles
  pub processing : List (String × EventFiles)
  pub deltas : List (String × Totals)
  pub rejected : EventFiles
  pub rollup : Option RollupState
  pub pending_events : ℕ
  pub dropping : Bool

-- How many changes of the file system are made before the process stops.
pub data Supply : Type 0 where
  unlimited : Supply
  changes : ℕ → Supply

abbrev pub Io : Type 0 → Type 0
Io A = Supply → StatsActor → Option (A × Supply) × StatsActor

module _ {A B : Type 0} where
  abbrev pub continue :
      Option (A × Supply) → (A → Io B) → StatsActor → Option (B × Supply) × StatsActor
  continue none f w = (none, w)
  continue (some (a, s)) f w = f a s w

  infixl 5 ◌>>=◌
  unfoldable pub ◌>>=◌ : Io A → (A → Io B) → Io B
  ◌>>=◌ m f s w = let (r, w') = m s w in continue r f w'

unfoldable pub pure : {A : Type 0} → A → Io A
pure a s w = (some (a, s), w)

unfoldable pub gets : {A : Type 0} → (StatsActor → A) → Io A
gets f s w = (some (f w, s), w)

-- A change of the actor's own fields.
unfoldable pub modify : (StatsActor → StatsActor) → Io (Unit {0})
modify f s w = (some (tt, s), f w)

-- An atomic change of the file system.
unfoldable pub change : (StatsActor → StatsActor) → Io (Unit {0})
change f unlimited w = (some (tt, unlimited), f w)
change f (changes zero) w = (none, w)
change f (changes (suc n)) w = (some (tt, changes n), f w)

-- What holds of a computation that ends, and of one that stops: it does not stop by itself.
abbrev pub Post :
    {A : Type 0}
    → (A → StatsActor → Type 0)
    → (StatsActor → Type 0)
    → Supply
    → Option (A × Supply)
    → StatsActor
    → Type 0
Post Q I s none w = I w × (s ≢ unlimited)
Post Q I s (some (a, s')) w = Q a w × (s ≡ unlimited → s' ≡ unlimited)

-- From `P` the computation ends in `Q`, or stops in `I`.
pub record Triple {A : Type 0} (P : StatsActor → Type 0) (m : Io A) (Q : A → StatsActor → Type 0)
    (I : StatsActor → Type 0) : Type 0 where
  pub at : (s : Supply) (w : StatsActor) → P w → Post Q I s (m s w).0 (m s w).1

pub Triple-none :
    {A : Type 0} {Q : A → StatsActor → Type 0} {I : StatsActor → Type 0} (m : Io A)
    → Triple (λ _. ⊥) m Q I
Triple-none m = record { at = λ s w p. elim p [ ] }

pub Triple-stop :
    {A : Type 0} {P : StatsActor → Type 0} {Q : A → StatsActor → Type 0} (I J : StatsActor → Type 0)
    (m : Io A)
    → Triple P m Q I
    → ((w : StatsActor) → I w → J w)
    → Triple P m Q J
Triple-stop {Q} I J m h f = record { at = λ s w p. weaken s (m s w).0 (m s w).1 (h.at s w p) }
  where
    weaken :
        (s : Supply) (r : Option (_ × Supply)) (v : StatsActor) → Post Q I s r v → Post Q J s r v
    weaken s none v (i, e) = (f v i, e)
    weaken s (some a) v p = p

module _ {A : Type 0} {P : StatsActor → Type 0} {Q : A → StatsActor → Type 0}
    {I : StatsActor → Type 0} where
  pub Triple-pure : (a : A) → ((w : StatsActor) → P w → Q a w) → Triple P (pure a) Q I
  unfolding pure
  Triple-pure a h = record { at = λ s w p. (h w p, λ e. e) }

  pub Triple-before :
      {R : StatsActor → Type 0} (m : Io A)
      → Triple P m Q I
      → ((w : StatsActor) → R w → P w)
      → Triple R m Q I
  Triple-before m h f = record { at = λ s w p. h.at s w (f w p) }

  pub Triple-if :
      (t : Bool) (a b : Io A)
      → (t ≡ true → Triple P a Q I)
      → (t ≡ false → Triple P b Q I)
      → Triple P (if t then a else b) Q I
  Triple-if true a b h k = h refl
  Triple-if false a b h k = k refl

  pub Triple-gets :
      (f : StatsActor → A) → ((w : StatsActor) → P w → Q (f w) w) → Triple P (gets f) Q I
  unfolding gets
  Triple-gets f h = record { at = λ s w p. (h w p, λ e. e) }

module _ {P I : StatsActor → Type 0} {Q : Unit {0} → StatsActor → Type 0} where
  pub Triple-modify :
      (f : StatsActor → StatsActor)
      → ((w : StatsActor) → P w → Q tt (f w))
      → Triple P (modify f) Q I
  unfolding modify
  Triple-modify f h = record { at = λ s w p. (h w p, λ e. e) }

  pub Triple-change :
      (f : StatsActor → StatsActor)
      → ((w : StatsActor) → P w → I w)
      → ((w : StatsActor) → P w → Q tt (f w))
      → Triple P (change f) Q I
  unfolding change
  Triple-change f i h = record { at = at }
    where
      at : (s : Supply) (w : StatsActor) → P w → Post Q I s (change f s w).0 (change f s w).1
      at unlimited w p = (h w p, λ e. e)
      at (changes zero) w p = (i w p, λ e. cc)
      at (changes (suc n)) w p = (h w p, λ e. cc)

continue-Post :
    {A B : Type 0} (R : A → StatsActor → Type 0) (Q : B → StatsActor → Type 0)
    (I : StatsActor → Type 0) (f : A → Io B)
    → ((a : A) → Triple (R a) (f a) Q I)
    → (s : Supply) (r : Option (A × Supply)) (w : StatsActor) → Post R I s r w
    → Post Q I s (continue r f w).0 (continue r f w).1
continue-Post R Q I f h s none w p = p
continue-Post R Q I f h s (some (a, s')) w (q, keeps) =
    again (f a s' w).0 (f a s' w).1 ((h a).at s' w q)
  where
    again : (r : Option (_ × Supply)) (v : StatsActor) → Post Q I s' r v → Post Q I s r v
    again none v (i, stopped) = (i, λ e. stopped (keeps e))
    again (some (b, s'')) v (q', keeps') = (q', λ e. keeps' (keeps e))

pub Triple-bind :
    {A B : Type 0} {P : StatsActor → Type 0} (R : A → StatsActor → Type 0)
    {Q : B → StatsActor → Type 0} {I : StatsActor → Type 0} (m : Io A) (f : A → Io B)
    → Triple P m R I
    → ((a : A) → Triple (R a) (f a) Q I)
    → Triple P (m >>= f) Q I
unfolding ◌>>=◌
Triple-bind R {Q} {I} m f hm hf = record {
  at = λ s w p. continue-Post R Q I f hf s (m s w).0 (m s w).1 (hm.at s w p);
}
