-- ===== src/Auth/Digest.antt =====
-- The two byte comparisons of the program, in src/auth.rs and src/security.rs, decide equality.
use Prim.Native.Nat.{bit_xor}
use mathlib.Core.Path.{ap₂}
use native.Mathlib.Nat.{add-zero, zero-add}
use update_delivery_system.Prelude.{
  ℕ, zero, suc, ◌+◌, ◌≡◌, refl, ◌<◌, ◌↔◌, true, List, [], ◌∷◌, length, max, get_elem?, unwrap_or,
  arith, ==_iff,
}
use update_delivery_system.Prelude.Bits.{bit_or-eq-zero_iff, bit_xor-eq-zero_iff}
use update_delivery_system.Auth.{eq_loop, constant_time_eq}

abbrev byte_at : List ℕ → ℕ → ℕ
byte_at l i = unwrap_or (get_elem? l i) 0

-- The lists agree at `n` places from `i` on.
abbrev AgreeFrom : List ℕ → List ℕ → ℕ → ℕ → Type 0
AgreeFrom l r i zero = Unit
AgreeFrom l r i (suc n) = (byte_at l i ≡ byte_at r i) × AgreeFrom l r (i + 1) n

eq_loop-eq-zero : (l r : List ℕ) (i n d : ℕ) → eq_loop l r i n d ≡ 0 → (d ≡ 0) × AgreeFrom l r i n
unfolding eq_loop
eq_loop-eq-zero l r i zero d h = (h, tt)
eq_loop-eq-zero l r i (suc n) d h =
    let (this, rest) = eq_loop-eq-zero l r (i + 1) n _ h in
    let (before, now) = (bit_or-eq-zero_iff d (bit_xor (byte_at l i) (byte_at r i))).0 this in
    (before, ((bit_xor-eq-zero_iff (byte_at l i) (byte_at r i)).0 now, rest))

eq_loop_self : (l : List ℕ) (i n : ℕ) → eq_loop l l i n 0 ≡ 0
unfolding eq_loop
eq_loop_self l i zero = refl
eq_loop_self l i (suc n) =
    let same : bit_xor (byte_at l i) (byte_at l i) ≡ 0 =
      (bit_xor-eq-zero_iff (byte_at l i) (byte_at l i)).1 refl in
    rw same (eq_loop_self l (i + 1) n)

agree_at :
    (l r : List ℕ) (i n j : ℕ) → AgreeFrom l r i n → j < n → byte_at l (i + j) ≡ byte_at r (i + j)
agree_at l r i zero j h lt = elim lt [ ]
agree_at l r i (suc n) zero h lt = rw add-zero h.0
agree_at l r i (suc n) (suc j) h lt =
    let e : i + suc j ≡ i + 1 + j = omega arith in rw e (agree_at l r (i + 1) n j h.1 (omega arith))

eq_of_bytes :
    (l r : List ℕ)
    → length l ≡ length r
    → ((j : ℕ) → j < length l → byte_at l j ≡ byte_at r j)
    → l ≡ r
eq_of_bytes [] [] e h = refl
eq_of_bytes [] (y ∷ r) e h = absurd (omega arith)
eq_of_bytes (x ∷ l) [] e h = absurd (omega arith)
eq_of_bytes (x ∷ l) (y ∷ r) e h =
    ap₂ ◌∷◌ (h 0 (omega arith)) (eq_of_bytes l r (omega arith) (λ j lt. h (suc j) (omega arith)))

-- The comparison of digests answers true exactly on equal byte sequences, whatever their lengths.
pub constant_time_eq_iff : (l r : List ℕ) → (constant_time_eq l r ≡ true) ↔ (l ≡ r)
unfolding constant_time_eq
constant_time_eq_iff l r = (
  λ h.
      let (d, agree) =
        eq_loop-eq-zero l r 0 (max (length l) (length r)) (bit_xor (length l) (length r))
          ((==_iff _ 0).0 h) in
      let e = (bit_xor-eq-zero_iff (length l) (length r)).0 d in
      eq_of_bytes l r e λ j lt.
        rw zero-add at (agree_at l r 0 (max (length l) (length r)) j agree (omega (arith, e))),
  λ p.
      let same : bit_xor (length l) (length l) ≡ 0 =
        (bit_xor-eq-zero_iff (length l) (length l)).1 refl in
      rw (← p) (rw same ((==_iff _ 0).1 (eq_loop_self l 0 (max (length l) (length l))))),
)
