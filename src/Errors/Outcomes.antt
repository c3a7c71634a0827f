-- ===== src/Errors/Outcomes.antt =====
-- What is known of the steps of a fallible computation that succeeds.
use mathlib.Core.Path.{subst}
use update_delivery_system.Prelude.{◌≡◌, refl, Bool, true, false, if◌then◌else◌}
use update_delivery_system.Errors.{UdsError, Result, ok, err, ◌>>=◌, ◌>>◌}

-- What holds of a result unless it is an error.
abbrev pub OnOk : {A : Type 0} → (A → Type 0) → Result A → Type 0
OnOk P (ok a) = P a
OnOk P (err e) = Unit

module _ {A B : Type 0} (P : B → Type 0) where
  pub OnOk-bind :
      (m : Result A) (f : A → Result B) → ((a : A) → m ≡ ok a → OnOk P (f a)) → OnOk P (m >>= f)
  OnOk-bind (ok a) f h = h a refl
  OnOk-bind (err e) f h = tt

pub OnOk-then :
    {B : Type 0} (P : B → Type 0) (m : Result (Unit {0})) (n : Result B)
    → OnOk P n
    → OnOk P (m >> n)
OnOk-then P (ok a) n h = h
OnOk-then P (err e) n h = tt

pub OnOk-map :
    {A : Type 0} (P Q : A → Type 0) (m : Result A) → ((a : A) → P a → Q a) → OnOk P m → OnOk Q m
OnOk-map P Q (ok a) f h = f a h
OnOk-map P Q (err e) f h = tt

pub OnOk-at : {A : Type 0} (P : A → Type 0) (m : Result A) (a : A) → OnOk P m → m ≡ ok a → P a
OnOk-at P m a h e = subst (OnOk P) e h

pub OnOk-after :
    {B : Type 0} (P : B → Type 0) (m : Result (Unit {0})) (n : Result B)
    → (m ≡ ok tt → OnOk P n)
    → OnOk P (m >> n)
OnOk-after P (ok a) n h = h refl
OnOk-after P (err e) n h = tt

-- A condition that a computation passes holds.
pub OnOk-if :
    {B : Type 0} (P : B → Type 0) (b : Bool) (e : UdsError) (n : Result B)
    → (b ≡ true → OnOk P n)
    → OnOk P ((if b then ok tt else err e) >> n)
OnOk-if P true e n h = h refl
OnOk-if P false e n h = tt

pub true_of_ok :
    (b : Bool) (e : UdsError)
    → ◌≡◌ {A = Result (Unit {0})} (if b then ok tt else err e) (ok tt)
    → b ≡ true
true_of_ok true e h = refl
true_of_ok false e h = cc

-- A sequence of steps succeeds if each step does.
module _ {A B : Type 0} {value : B} where
  pub >>=-succeeds :
      (step : Result A) (rest : A → Result B)
      → (step >>= rest) ≡ ok value
      → (found : A) × (step ≡ ok found) × (rest found ≡ ok value)
  >>=-succeeds (err failure) rest h = cc
  >>=-succeeds (ok found) rest h = (found, refl, h)

pub >>-succeeds :
    {B : Type 0} {value : B} (check : Result (Unit {0})) (rest : Result B)
    → (check >> rest) ≡ ok value
    → (check ≡ ok tt) × (rest ≡ ok value)
>>-succeeds (err failure) rest h = cc
>>-succeeds (ok _) rest h = (refl, h)
