-- ===== src/Base/Bits.antt =====
-- Single bits of a byte, by the operations that C writes: `x & (1 << k)`, `x | (1 << k)`,
-- `x & ~(1 << k)`.
use Prim.Native.Nat.{ℕ, zero, suc, ◌-◌, ◌%◌, ◌^◌, ◌<◌, bit_and, bit_or, bit_or-bitwise}
use mathlib.Core.Path.{◌≡◌, refl}
use mathlib.Core.Logic.{inl, inr}
use mathlib.Core.Bool.{Bool, true, false, not, ◌&&◌, ◌||◌}
use native.Mathlib.Omega.{arith}
use cocos_os.Base.Tests.{◌==◌, ltb, if◌then◌else◌, Bool-cases}

unfoldable pub has_bit : ℕ → ℕ → Bool
has_bit x k = not (bit_and x (2 ^ k) == 0)

unfoldable pub set_bit : ℕ → ℕ → ℕ
set_bit x k = bit_or x (2 ^ k)

unfoldable pub clear_bit : ℕ → ℕ → ℕ
clear_bit x k = bit_and x (255 - 2 ^ k)

-- A test of all numbers under a bound, from the largest down.
unfoldable pub passes : (ℕ → Bool) → ℕ → Bool
passes test zero = true
passes test (suc bound) = if test bound then passes test bound else false

pub passes_lem :
    (test : ℕ → Bool) (bound k : ℕ) → k < bound → passes test bound ≡ true → test k ≡ true
unfolding passes
passes_lem test zero k below every = absurd (omega arith)
passes_lem test (suc bound) k below every = elim (Bool-cases (test bound)) [
  | inl last ↦ ground (arith, passes_lem test bound k)
  | inr fails ↦ cc (rw fails at every)
]

same : Bool → Bool → Bool
same true b = b
same false b = not b

same_eq : (a b : Bool) → same a b ≡ true → a ≡ b
unfolding same
same_eq a b h = ground arith

set_law : ℕ → ℕ → ℕ → Bool
unfolding has_bit set_bit same
set_law x k j = same (has_bit (set_bit x k) j) (j == k || has_bit x j) && ltb (set_bit x k) 256

clear_law : ℕ → ℕ → ℕ → Bool
unfolding has_bit clear_bit same
clear_law x k j =
    same (has_bit (clear_bit x k) j) (not (j == k) && has_bit x j) && ltb (clear_bit x k) 256

ltb_lt : (a b : ℕ) → ltb a b ≡ true → a < b
ltb_lt a b h = ground arith

for_all : (ℕ → ℕ → ℕ → Bool) → Bool
unfolding passes
for_all p = passes (λ x. passes (λ k. passes (p x k) 8) 8) 256

for_all_sound :
    (p : ℕ → ℕ → ℕ → Bool) (x k j : ℕ) → for_all p ≡ true → x < 256 → k < 8 → j < 8 → p x k j ≡ true
unfolding for_all
for_all_sound p x k j h hx hk hj = passes_lem (p x k) 8 j hj (
    passes_lem (λ k. passes (p x k) 8) 8 k hk
      (passes_lem (λ x. passes (λ k. passes (p x k) 8) 8) 256 x hx h))

set_table : for_all set_law ≡ true
unfolding for_all set_law
set_table = refl

clear_table : for_all clear_law ≡ true
unfolding for_all clear_law
clear_table = refl

and_true : (a b : Bool) → (a && b) ≡ true → (a ≡ true) × (b ≡ true)
and_true a b h = ground arith

module _ (x k j : ℕ) (hx : x < 256) (hk : k < 8) (hj : j < 8) where
  -- Setting bit `k` of a byte sets that bit and no other.
  pub has_bit-set_bit : has_bit (set_bit x k) j ≡ (j == k || has_bit x j)
  unfolding set_law
  has_bit-set_bit = same_eq _ _ (and_true _ _ (for_all_sound set_law x k j set_table hx hk hj)).0

  -- Clearing bit `k` of a byte clears that bit and no other.
  pub has_bit-clear_bit : has_bit (clear_bit x k) j ≡ (not (j == k) && has_bit x j)
  unfolding clear_law
  has_bit-clear_bit =
      same_eq _ _ (and_true _ _ (for_all_sound clear_law x k j clear_table hx hk hj)).0

module _ (x k : ℕ) (hx : x < 256) (hk : k < 8) where
  pub set_bit_lt : set_bit x k < 256
  unfolding set_law
  set_bit_lt =
      ltb_lt (set_bit x k) 256 (and_true _ _ (for_all_sound set_law x k k set_table hx hk hk)).1

  pub clear_bit_lt : clear_bit x k < 256
  unfolding clear_law
  clear_bit_lt =
      ltb_lt (clear_bit x k) 256
        (and_true _ _ (for_all_sound clear_law x k k clear_table hx hk hk)).1

-- `(x | 1) & 1`
pub odd-bit_or : (x : ℕ) → bit_or x 1 % 2 ≡ 1
odd-bit_or zero = refl
odd-bit_or (suc a) = omega (arith, bit_or-bitwise (suc a) 1)
