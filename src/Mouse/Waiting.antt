-- ===== src/Mouse/Waiting.antt =====
-- How long kernel/drivers/mouse/mouse.c waits.
use cocos_os.Base.{
  ℕ, zero, suc, ◌+◌, ◌<◌, ◌≤◌, ◌≡◌, refl, ◌⊎◌, inl, inr, true, false, arith, Bool-cases, ◌==◌,
  ==_iff, ap, ◌∙◌,
}
use cocos_os.Mouse.{is_ready, wait_from, mouse_timeout, mouse_wait}

-- The wait ends at the first answer that is ready, or with all its time used up and none ready.
abbrev pub Waited : (type : ℕ) → (answers : ℕ → ℕ) → (timeout i n : ℕ) → Type 0
Waited type answers timeout i n =
    ((j : ℕ) × (n ≡ j + 1)
      × (i ≤ j)
      × (j < i + timeout)
      × (is_ready type (answers j) ≡ true)
      × ((k : ℕ) → i ≤ k → k < j → is_ready type (answers k) ≡ false))
    ⊎ ((n ≡ i + timeout) × ((k : ℕ) → i ≤ k → k < i + timeout → is_ready type (answers k) ≡ false))

later :
    (type : ℕ) (answers : ℕ → ℕ) (i k : ℕ)
    → is_ready type (answers i) ≡ false
    → i ≤ k
    → (i + 1 ≤ k → is_ready type (answers k) ≡ false)
    → is_ready type (answers k) ≡ false
later type answers i k not_yet le rest = elim (Bool-cases (k == i)) [
  | inl at ↦ ap (λ n. is_ready type (answers n)) ((==_iff k i).0 at) ∙ not_yet
  | inr past ↦ rest (ground arith)
]

Waited-step :
    (type : ℕ) (answers : ℕ → ℕ) (timeout i n : ℕ)
    → is_ready type (answers i) ≡ false
    → Waited type answers timeout (i + 1) n
    → Waited type answers (suc timeout) i n
Waited-step type answers timeout i n not_yet (inl (j, e, low, high, ready, before)) = inl (
  j,
  e,
  omega arith,
  omega arith,
  ready,
  λ k a b. later type answers i k not_yet a (λ l. before k l b),
)
Waited-step type answers timeout i n not_yet (inr (e, never)) =
    inr (omega arith, λ k a b. later type answers i k not_yet a (λ l. never k l (omega arith)))

wait_from-Waited :
    (type : ℕ) (answers : ℕ → ℕ) (timeout i : ℕ)
    → Waited type answers timeout i (wait_from type answers timeout i)
unfolding wait_from
wait_from-Waited type answers zero i = inr (omega arith, λ k a b. absurd (omega arith))
wait_from-Waited type answers (suc timeout) i = elim (Bool-cases (is_ready type (answers i))) [
  | inl now ↦ rw now (inl (i, refl, omega arith, omega arith, now, λ k a b. absurd (omega arith)))
  | inr not_yet ↦ rw not_yet (
      Waited-step type answers timeout i (wait_from type answers timeout (i + 1)) not_yet
        (wait_from-Waited type answers timeout (i + 1)))
]

-- `mouse_wait` always ends: with the read that finds the port ready, if that is among the first 100000,
-- none before it being ready, and otherwise after 100000 reads.
pub mouse_wait_lem :
    (type : ℕ) (answers : ℕ → ℕ) → Waited type answers 100000 0 (mouse_wait type answers)
unfolding mouse_wait
mouse_wait_lem type answers = wait_from-Waited type answers mouse_timeout 0
