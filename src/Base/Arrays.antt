-- ===== src/Base/Arrays.antt =====
-- C arrays as functions of the index, and the items of a ring buffer in them.
use Prim.Native.Nat.{ℕ, zero, suc, ◌+◌, ◌-◌, ◌%◌, ◌<◌}
use mathlib.Core.Path.{◌≡◌, refl, sym, ap, ap₂, ◌∙◌}
use mathlib.Core.Logic.{◌≢◌, ◌⊎◌, inl, inr}
use mathlib.Core.List.{List, [], ◌∷◌, ◌++◌}
use native.Mathlib.Nat.{mod-add-mod}
use native.Mathlib.Omega.{arith}
use cocos_os.Base.Tests.{◌==◌, leb, Bool-cases, if◌then◌else◌, ==_of_ne, ==_self}
use cocos_os.Base.Lists.{length}

module _ {ℓ} {A : Type ℓ} where
  -- `f[i] = v`
  abbrev pub update : (ℕ → A) → ℕ → A → ℕ → A
  update f i v j = if j == i then v else f j

  pub update_self : (f : ℕ → A) (i : ℕ) (v : A) → update f i v i ≡ v
  update_self f i v = rw (==_self i)

  pub update-ne : (f : ℕ → A) (i : ℕ) (v : A) (j : ℕ) → j ≢ i → update f i v j ≡ f j
  update-ne f i v j ne = rw (==_of_ne ne)

  -- The `n` items from index `h` on, going round at `size`.
  abbrev pub items : (ℕ → A) → ℕ → ℕ → ℕ → List A
  items f size h zero = []
  items f size h (suc n) = f h ∷ items f size ((h + 1) % size) n

  pub length-items : (f : ℕ → A) (size h n : ℕ) → length (items f size h n) ≡ n
  length-items f size h zero = refl
  length-items f size h (suc n) = ap suc (length-items f size ((h + 1) % size) n)

-- Fewer than `size` steps round do not come back to the start.
steps_ne : (size h n : ℕ) → h < size → suc n < size → (h + suc n) % size ≢ h
steps_ne size h n low short = grind arith

step_shift : (size h n : ℕ) → ((h + 1) % size + n) % size ≡ (h + suc n) % size
step_shift size h n = mod-add-mod (h + 1) size n ∙ ap (λ k. k % size) (omega arith)

module _ {ℓ} {A : Type ℓ} (f : ℕ → A) (size : ℕ) (v : A) where
  -- A write just past the items appends to them.
  pub items-update :
      (h n t : ℕ)
      → h < size
      → n < size
      → t ≡ (h + n) % size
      → items (update f t v) size h (suc n) ≡ items f size h n ++ (v ∷ [])
  items-update h zero t low short at = let here : t ≡ h = at ∙ grind arith in rw (here, ==_self h)
  items-update h (suc n) t low short at =
      let other : h ≢ t = λ e. steps_ne size h n low short (sym at ∙ sym e) in
      ap₂ ◌∷◌ (update-ne f t v h other) (
        items-update ((h + 1) % size) n t (omega arith) (omega arith)
          (at ∙ sym (step_shift size h n)))

-- The code tests the number of items, `items` matches on it.
pub items_of_pos {ℓ} :
    {A : Type ℓ} (f : ℕ → A) (size h n : ℕ)
    → 0 < n
    → items f size h n ≡ f h ∷ items f size ((h + 1) % size) (n - 1)
items_of_pos f size h zero pos = absurd (omega arith)
items_of_pos f size h (suc n) pos = ap (λ k. f h ∷ items f size ((h + 1) % size) k) (omega arith)

-- How many items stand between head and tail, where a full ring is not told from an empty one.
abbrev pub pending : ℕ → ℕ → ℕ → ℕ
pending size h t = if leb h t then t - h else t + size - h

pub pending_self : (size h : ℕ) → pending size h h ≡ 0
pending_self size h = ground arith

step_cases :
    (size t : ℕ)
    → t < size
    → ((t + 1 < size) × ((t + 1) % size ≡ t + 1)) ⊎ ((t + 1 ≡ size) × ((t + 1) % size ≡ 0))
step_cases size t h = grind arith

module _ (size h t : ℕ) (low : h < size) (high : t < size) where
  pub pending_lt : pending size h t < size
  pending_lt = ground arith

  pub pending-tail :
      pending size h t + 1 < size → pending size h ((t + 1) % size) ≡ pending size h t + 1
  pending-tail room = elim (step_cases size t high) [
    | inl (p, e) ↦ rw e (ground arith)
    | inr (p, e) ↦ rw e (ground arith)
  ]

  -- One item too many meets the head.
  pub pending-tail_full : pending size h t + 1 ≡ size → (t + 1) % size ≡ h
  pending-tail_full full = elim (step_cases size t high) [
    | inl (p, e) ↦ rw e (ground arith)
    | inr (p, e) ↦ rw e (ground arith)
  ]

  pub pending-head : h ≢ t → pending size ((h + 1) % size) t + 1 ≡ pending size h t
  pending-head ne = elim (step_cases size h low) [
    | inl (p, e) ↦ rw e (ground arith)
    | inr (p, e) ↦ rw e (ground arith)
  ]

  pub pending_pos : h ≢ t → 0 < pending size h t
  pending_pos ne = ground arith

  pub add-pending : (h + pending size h t) % size ≡ t
  add-pending = elim (Bool-cases (leb h t)) [
    | inl p ↦ rw p (grind arith)
    | inr p ↦ rw p (grind arith)
  ]
