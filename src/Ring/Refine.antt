-- ===== src/Ring/Refine.antt =====
-- The ring of kernel/events/event.c and kernel/input/input.c behaves as `Ring.Lossy`.
use cocos_os.Base.{
  ℕ, suc, ◌+◌, ◌%◌, ◌<◌, ◌≡◌, ◌≢◌, refl, sym, ap, ◌∙◌, inl, inr, Option, some, List, [], ◌∷◌, arith,
  ◌==◌, update, items, length-items, items-update, items_of_pos, pending, pending_lt, pending-tail,
  pending-tail_full, pending-head, pending_pos, pending_self, add-pending, Bool-cases, ==_iff,
}
use cocos_os.Ring.{Ring, Op, put, get, init, push, poll, run}
use cocos_os.Ring.Lossy

module _ {ℓ} {A : Type ℓ} where
  -- Both indices stand inside the array.
  pub record IsRing (size : ℕ) (r : Ring A) : Type 0 where
    pub head_in : r.head < size
    pub tail_in : r.tail < size

  -- The entries that wait, oldest first.
  abbrev pub contents : ℕ → Ring A → List A
  contents size r = items r.queue size r.head (pending size r.head r.tail)

  pub init-IsRing : (size : ℕ) (r : Ring A) → 0 < size → IsRing size (init r)
  unfolding init
  init-IsRing size r h = omega arith

  pub push-IsRing : (size : ℕ) (r : Ring A) (e : A) → IsRing size r → IsRing size (push size r e)
  unfolding push
  push-IsRing size r e h = record { head_in = h.head_in; tail_in = omega (arith, h.tail_in) }

  pub poll-IsRing : (size : ℕ) (r : Ring A) → IsRing size r → IsRing size (poll size r).1
  unfolding poll
  poll-IsRing size r h = elim (Bool-cases (r.head == r.tail)) [
    | inl p ↦ rw p h
    | inr p ↦ rw p (record { head_in = omega (arith, h.head_in); tail_in = h.tail_in })
  ]

  pub push_refines :
      (size : ℕ) (r : Ring A) (e : A)
      → IsRing size r
      → contents size (push size r e) ≡ Lossy.push size (contents size r) e
  unfolding push Lossy.push
  push_refines size r e h =
      let count = length-items r.queue size r.head (pending size r.head r.tail) in
      let small = pending_lt size r.head r.tail h.head_in h.tail_in in
      let meets : pending size r.head r.tail + 1 ≡ size
          → pending size r.head ((r.tail + 1) % size) ≡ 0 =
        λ full.
          ap (pending size r.head) (pending-tail_full size r.head r.tail h.head_in h.tail_in full)
          ∙ pending_self size r.head in
      let grows : pending size r.head r.tail + 1 < size
          → pending size r.head ((r.tail + 1) % size) ≡ suc (pending size r.head r.tail) =
        λ q. omega (arith, pending-tail size r.head r.tail h.head_in h.tail_in q) in
      elim (Bool-cases (pending size r.head r.tail + 1 == size)) [
        | inl p ↦
            rw (count, p)
              (ap (items (update r.queue r.tail e) size r.head) (meets ((==_iff _ size).0 p)))
        | inr p ↦
            rw (count, p)
              (ap (items (update r.queue r.tail e) size r.head) (grows (ground arith))
                ∙ items-update r.queue size e r.head (pending size r.head r.tail) r.tail h.head_in
                    small (sym (add-pending size r.head r.tail h.head_in h.tail_in)))
      ]

  pub poll_refines :
      (size : ℕ) (r : Ring A)
      → IsRing size r
      → ((poll size r).0, contents size (poll size r).1) ≡ Lossy.poll (contents size r)
  unfolding poll Lossy.poll
  poll_refines size r h =
      let none_left : r.head ≡ r.tail → contents size r ≡ [] = λ e.
        ap (items r.queue size r.head)
          (ap (λ x. pending size x r.tail) e ∙ pending_self size r.tail) in
      elim (Bool-cases (r.head == r.tail)) [
        | inl p ↦ (let empty = none_left ((==_iff r.head r.tail).0 p) in rw (p, empty))
        | inr p ↦
            (let ne : r.head ≢ r.tail = ground arith in
              rw
                (
                  p,
                  items_of_pos r.queue size r.head (pending size r.head r.tail)
                      (pending_pos size r.head r.tail h.head_in h.tail_in ne),
                )
                (ap (λ n. (some (r.queue r.head), items r.queue size ((r.head + 1) % size) n))
                  (omega (arith, pending-head size r.head r.tail h.head_in h.tail_in ne))))
      ]

  -- From a state with both indices inside the array, any calls of push and poll make the ring
  -- answer every poll as the lossy queue of what it holds does.
  pub run_refines :
      (size : ℕ) (r : Ring A) (ops : List (Op A))
      → IsRing size r
      → run size r ops ≡ Lossy.run size (contents size r) ops
  unfolding run Lossy.run
  run_refines size r [] h = refl
  run_refines size r (put e ∷ ops) h =
      run_refines size (push size r e) ops (push-IsRing size r e h)
      ∙ ap (λ q. Lossy.run size q ops) (push_refines size r e h)
  run_refines size r (get ∷ ops) h =
      ap (λ rest. (poll size r).0 ∷ rest)
        (run_refines size (poll size r).1 ops (poll-IsRing size r h))
      ∙ ap (λ (o : Option A × List A). o.0 ∷ Lossy.run size o.1 ops) (poll_refines size r h)
