-- ===== src/Paging/Fresh.antt =====
-- What the calls of Memory_alloc in kernel/memory/paging.c may rely on.
use cocos_os.Base.{
  ◌+◌, ◌^◌, ◌<◌, ◌≤◌, ℕ, ◌≡◌, ◌≢◌, sym, ap, ◌∙◌, ◌⊎◌, inl, inr, Option, none, some, arith, ◌==◌,
  List, Bool-cases, ok, ok_inj, bind_ok, or_fault,
}
use cocos_os.Memory.{Addr, null, Heap, memory_alloc}
use cocos_os.Memory.Blocks.{Block}
use cocos_os.Memory.Layout.{IsHeap}
use cocos_os.Memory.Safety.{InUse}
use cocos_os.Memory.Contract.{memory_alloc_disjoint}
use cocos_os.Paging.{Paging, allocate}

or_fault_ok : {A : Type 0} (o : Option A) {a : A} → or_fault o ≡ ok a → o ≡ some a
or_fault_ok none h = cc h
or_fault_ok (some a) h = ap (λ x. some x) (ok_inj h)

-- An address that is in use in `h`, with room for the bytes asked for, and overlaps nothing that was in use before.
abbrev pub Fresh : Heap → List Block → Addr → ℕ → Heap → List Block → Type 0
Fresh t bs p size h cs =
    IsHeap h cs
    × ((n : ℕ) × (size ≤ n) × InUse p n h.heap_start cs)
    × ((q k : ℕ)
        → InUse q k t.heap_start bs
        → InUse q k h.heap_start cs × ((q + k ≤ p) ⊎ (p + size ≤ q)))

-- An allocation that returns, taken apart.
pub allocate_done :
    (s : Paging) (size : ℕ) (p : Addr) (s' : Paging)
    → allocate s size ≡ ok (p, s')
    → (h : Heap) × (memory_alloc s.heap size ≡ some (p, h))
      × (p ≢ null)
      × (s' ≡ record s { heap = h })
unfolding allocate
allocate_done s size p s' e =
    let ((q, h), found, rest) = bind_ok (or_fault (memory_alloc s.heap size)) _ e in
    elim (Bool-cases (q == null)) [
      | inl none_left ↦ cc (rw none_left at rest)
      | inr given ↦
          (let same = ok_inj (rw given at rest) in
            let here : q ≡ p = ap (λ (r : Addr × Paging). r.0) same in
            (
              h,
              or_fault_ok (memory_alloc s.heap size) found ∙ ap (λ x. some (x, h)) here,
              λ z. absurd (ground arith),
              sym (ap (λ (r : Addr × Paging). r.1) same),
            ))
    ]

pub allocate-Fresh :
    (s : Paging) (bs : List Block) (size : ℕ) (p : Addr) (s' : Paging)
    → IsHeap s.heap bs
    → 0 < size
    → size + 3 < 2 ^ 32
    → allocate s size ≡ ok (p, s')
    → (h : Heap) × (cs : List Block) × (s' ≡ record s { heap = h }) × Fresh s.heap bs p size h cs
allocate-Fresh s bs size p s' heap_ok pos small e =
    let (h, alloc, not_null, same) = allocate_done s size p s' e in
    let (cs, a, b, c) =
      memory_alloc_disjoint s.heap bs size p h heap_ok pos (omega arith) alloc not_null in
    (h, cs, same, (a, b, c))
