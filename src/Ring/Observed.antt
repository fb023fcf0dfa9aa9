-- ===== src/Ring/Observed.antt =====
-- What can be observed of the ring of kernel/events/event.c and kernel/input/input.c: the states up to
-- the answers that they give.
use native.Mathlib.Bridge.{le_prop}
use mathlib.Core.HLevel.{Σ_prop_path}
use mathlib.Core.Equiv.{◌≃◌, iso_to_equiv}
use mathlib.Core.List
use mathlib.Core.Quot
use mathlib.Core.Quot.{Quot, Quot-set}
use cocos_os.Base.{
  ℕ, zero, suc, ◌+◌, ◌%◌, ◌<◌, ◌≤◌, ◌≡◌, ◌↔◌, refl, sym, ap, ap₂, ◌∙◌, List, [], ◌∷◌, arith, length,
  get_or, items, length-items, pending, pending_lt, replicate,
}
use cocos_os.Ring.{Ring, Op, get, run}
use cocos_os.Ring.Lossy
use cocos_os.Ring.Refine.{IsRing, contents, run_refines}

module _ {A : Type 0} where
  -- As many polls as a queue can hold tell what it holds.
  equal_of_polls :
      (size n : ℕ) (q q' : List A)
      → length q ≤ n
      → length q' ≤ n
      → Lossy.run size q (replicate n get) ≡ Lossy.run size q' (replicate n get)
      → q ≡ q'
  unfolding Lossy.run Lossy.poll
  equal_of_polls size n [] [] h h' e = refl
  equal_of_polls size zero [] (x ∷ xs) h h' e = absurd (omega arith)
  equal_of_polls size zero (x ∷ xs) q' h h' e = absurd (omega arith)
  equal_of_polls size (suc n) [] (x ∷ xs) h h' e = cc e
  equal_of_polls size (suc n) (x ∷ xs) [] h h' e = cc e
  equal_of_polls size (suc n) (x ∷ xs) (y ∷ ys) h h' e =
      ap₂ ◌∷◌ (cc e) (equal_of_polls size n xs ys (omega arith) (omega arith) (cc e))

  -- The items of an array that holds a list.
  items_of_list :
      (f : ℕ → A) (size h : ℕ) (q : List A) (d : A)
      → h + length q < size
      → ((i : ℕ) → i < length q → f (h + i) ≡ get_or q i d)
      → items f size h (length q) ≡ q
  items_of_list f size h [] d room same = refl
  items_of_list f size h (x ∷ xs) d room same =
      let step : (h + 1) % size ≡ h + 1 = grind arith in
      let start : f h ≡ x = ap f (omega arith) ∙ same 0 (omega arith) in
      ap₂ ◌∷◌ start (
        ap (λ k. items f size k (length xs)) step
        ∙ items_of_list f size (h + 1) xs d (omega arith)
            (λ i low. ap f (omega arith) ∙ same (suc i) (omega arith)))

module _ {A : Type 0} (size : ℕ) where
  bounded : (r : Ring A) → IsRing size r → length (contents size r) ≤ size
  bounded r h = omega (
    arith,
    length-items r.queue size r.head (pending size r.head r.tail),
    pending_lt size r.head r.tail h.head_in h.tail_in,
  )

  -- Two states are alike if no calls tell them apart.
  abbrev pub Alike : (r r' : (r : Ring A) × IsRing size r) → Type 0
  Alike r r' = (ops : List (Op A)) → run size r.0 ops ≡ run size r'.0 ops

  -- No calls tell two states with both indices inside the array apart exactly where they hold the same entries.
  pub Alike-contents :
      (r r' : (r : Ring A) × IsRing size r) → Alike r r' ↔ (contents size r.0 ≡ contents size r'.0)
  Alike-contents (r, h) (r', h') = (
    λ e.
        equal_of_polls size size (contents size r) (contents size r') (bounded r h) (bounded r' h')
          (sym (run_refines size r (replicate size get) h)
            ∙ e (replicate size get)
            ∙ run_refines size r' (replicate size get) h'),
    λ e ops.
        run_refines size r ops h
        ∙ ap (λ q. Lossy.run size q ops) e
        ∙ sym (run_refines size r' ops h'),
  )

-- The lists of fewer than `size` entries.
abbrev pub Short : Type 0 → ℕ → Type 0
Short A size = (q : List A) × (length q < size)

-- The states with both indices inside the array, up to what calls tell apart.
abbrev pub Observed : Type 0 → ℕ → Type 0
Observed A size = Quot (Alike {A = A} size)

module _ {A : Type 0} (A_set : IsSet A) (size : ℕ) (default : A) where
  Short-set : IsSet (Short A size)
  Short-set = hlevel (List.is_set A_set, le_prop)

  Short-ext : (a b : Short A size) → a.0 ≡ b.0 → a ≡ b
  Short-ext a b e = Σ_prop_path (λ q. le_prop) e

  shown : (r : Ring A) × IsRing size r → Short A size
  shown (r, h) = (
    contents size r,
    omega (
      arith,
      length-items r.queue size r.head (pending size r.head r.tail),
      pending_lt size r.head r.tail h.head_in h.tail_in,
    ),
  )

  stored : Short A size → (r : Ring A) × IsRing size r
  stored (q, short) = (
    record { queue = λ i. get_or q i default; head = 0; tail = length q },
    record { head_in = omega arith; tail_in = short },
  )

  contents-stored : (q : Short A size) → contents size (stored q).0 ≡ q.0
  unfolding stored
  contents-stored (q, short) =
      let count : pending size 0 (length q) ≡ length q = ground arith in
      ap (items (λ i. get_or q i default) size 0) count
      ∙ items_of_list (λ i. get_or q i default) size 0 q default (omega arith)
          (λ i low. ap (λ k. get_or q k default) (omega arith))

  -- For entries of a set with an element, what can be observed of a ring is a list of fewer than `size` entries, and
  -- each of those lists: the states with both indices inside the array, up to what calls tell apart, are
  -- equivalent to those lists, and a state goes to the entries that wait in it.
  pub Observed-Short :
      (e : Observed A size ≃ Short A size) × ((r : (r : Ring A) × IsRing size r)
        → (e.0 (Quot.mk r)).0 ≡ contents size r.0)
  unfolding shown
  Observed-Short = (
    iso_to_equiv (record {
      fun =
          Quot.lift Short-set shown
            (λ r r' e. Short-ext (shown r) (shown r') ((Alike-contents size r r').0 e));
      inv = λ q. Quot.mk (stored q);
      rinv = λ q. Short-ext _ q (contents-stored q);
      linv =
          Quot.ind (λ b. Quot-set _ _)
            (λ r.
              Quot.sound
                ((Alike-contents size (stored (shown r)) r).1 (contents-stored (shown r))));
    }),
    λ r. refl,
  )
