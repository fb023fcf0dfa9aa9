-- ===== src/Base/Strings.antt =====
-- C strings: a text is the list of its bytes with no NUL, a buffer a list of bytes that holds one up
-- to the first NUL. What the code uses of <string.h>.
use Prim.Native.Char.{code}
use Prim.Native.String.{String}
use Prim.Native.Nat.{ℕ, zero, suc, ◌<◌, ◌≤◌}
use mathlib.Core.Path.{◌≡◌, refl, ap}
use mathlib.Core.Logic.{◌≢◌, inl, inr}
use mathlib.Core.Bool.{Bool, true, false, ◌&&◌}
use mathlib.Core.List.{List, [], ◌∷◌}
use native.Mathlib.Omega.{arith}
use cocos_os.Base.Tests.{◌==◌, if◌then◌else◌, ==_of_ne, ==_self, Bool-cases}
use cocos_os.Base.Lists.{length, take, set}

abbrev pub Text : Type 0
Text = List ℕ

-- The bytes of a literal, if it is ASCII.
abbrev pub codes : String → Text
codes String.[] = []
codes (String.◌∷◌ c s) = code c ∷ codes s

-- The text has no NUL.
abbrev pub NulFree : Text → Type 0
NulFree [] = Unit
NulFree (c ∷ cs) = (c ≢ 0) × NulFree cs

-- The text that a buffer holds.
abbrev pub until_nul : List ℕ → Text
until_nul [] = []
until_nul (c ∷ cs) = if c == 0 then [] else c ∷ until_nul cs

-- `strncpy(dst, src, n)`: up to `n` bytes of the text, then NULs up to `n`.
unfoldable pub strncpy : ℕ → Text → List ℕ → List ℕ
strncpy zero src dst = dst
strncpy (suc n) src [] = []
strncpy (suc n) [] (d ∷ dst) = 0 ∷ strncpy n [] dst
strncpy (suc n) (c ∷ src) (d ∷ dst) = c ∷ strncpy n src dst

-- `strcmp(a, b) == 0`
unfoldable pub str_eq : Text → Text → Bool
str_eq [] [] = true
str_eq [] (d ∷ ds) = false
str_eq (c ∷ cs) [] = false
str_eq (c ∷ cs) (d ∷ ds) = (c == d) && str_eq cs ds

pub str_eq_self : (a : Text) → str_eq a a ≡ true
unfolding str_eq
str_eq_self [] = refl
str_eq_self (c ∷ cs) = rw (==_self c, str_eq_self cs)

pub str_eq→eq : (a b : Text) → str_eq a b ≡ true → a ≡ b
unfolding str_eq
str_eq→eq [] [] h = refl
str_eq→eq [] (d ∷ ds) h = cc
str_eq→eq (c ∷ cs) [] h = cc
str_eq→eq (c ∷ cs) (d ∷ ds) h = ground (arith, str_eq→eq cs ds)

pub until_nul-NulFree : (buf : List ℕ) → NulFree (until_nul buf)
until_nul-NulFree [] = tt
until_nul-NulFree (c ∷ cs) = elim (Bool-cases (c == 0)) [
  | inl p ↦ rw p tt
  | inr p ↦ rw p (ground arith, until_nul-NulFree cs)
]

-- A copy cut at `n` and closed by a NUL there holds the first `n` bytes.
pub until_nul-strncpy :
    (n : ℕ) (src : Text) (dst : List ℕ)
    → NulFree src
    → n < length dst
    → until_nul (set (strncpy n src dst) n 0) ≡ take n src
unfolding strncpy
until_nul-strncpy zero src [] h room = elim room [ ]
until_nul-strncpy zero src (d ∷ dst) h room = refl
until_nul-strncpy (suc n) src [] h room = elim room [ ]
until_nul-strncpy (suc n) [] (d ∷ dst) h room = refl
until_nul-strncpy (suc n) (c ∷ src) (d ∷ dst) h room =
    rw (==_of_ne h.0) (ap (λ t. c ∷ t) (until_nul-strncpy n src dst h.1 (omega arith)))

-- A text shorter than the room for it is copied whole.
pub until_nul-strncpy_short :
    (n : ℕ) (src : Text) (dst : List ℕ)
    → NulFree src
    → length src < n
    → n ≤ length dst
    → until_nul (strncpy n src dst) ≡ src
unfolding strncpy
until_nul-strncpy_short zero src dst h short room = elim short [ ]
until_nul-strncpy_short (suc n) src [] h short room = absurd (omega arith)
until_nul-strncpy_short (suc n) [] (d ∷ dst) h short room = refl
until_nul-strncpy_short (suc n) (c ∷ src) (d ∷ dst) h short room =
    rw (==_of_ne h.0)
      (ap (λ t. c ∷ t) (until_nul-strncpy_short n src dst h.1 (omega arith) (omega arith)))

pub length-strncpy : (n : ℕ) (src : Text) (dst : List ℕ) → length (strncpy n src dst) ≡ length dst
unfolding strncpy
length-strncpy zero src dst = refl
length-strncpy (suc n) src [] = refl
length-strncpy (suc n) [] (d ∷ dst) = ap suc (length-strncpy n [] dst)
length-strncpy (suc n) (c ∷ src) (d ∷ dst) = ap suc (length-strncpy n src dst)
