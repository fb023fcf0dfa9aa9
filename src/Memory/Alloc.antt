-- ===== src/Memory/Alloc.antt =====
-- `Memory_alloc` of kernel/memory/memory.c on a well-formed heap is first fit over its blocks.
use cocos_os.Base.{
  ℕ, zero, suc, ◌+◌, ◌-◌, ◌≤◌, ◌<◌, ◌^◌, ◌≡◌, refl, ◌∙◌, inl, inr, true, false, Option, none, some,
  List, [], ◌∷◌, arith, ltb, add32, sub32, length, ap, ==_of_ne, ==_self, ◌≢◌, Bool-cases,
}
use mathlib.Core.Option
use cocos_os.Memory.{
  Addr, null, header_size, Cells, Heap, rounds, take_block, alloc_loop, align4, memory_alloc,
}
use cocos_os.Memory.Blocks.{Block, Positive, fits, split, alloc}
use cocos_os.Memory.Layout.{
  link, Holds, IsHeap, Holds-extent, Holds-frame, length-lt-rounds, write-ne, write_self,
}

pub fits_le : (size : ℕ) (b : Block) → fits size b ≡ true → (b.used ≡ false) × (size ≤ b.size)
fits_le size b h = ground arith

link-split : (size : ℕ) (b : Block) (bs : List Block) (x : Addr) → link (split size b bs) x ≡ x
unfolding split
link-split size b bs x = ground arith

module _ (size : ℕ) (m : Cells) (a : Addr) (b : Block) (bs : List Block) (e : Addr) (low : 0 < a)
    (bound : e + 4 ≤ 2 ^ 32) (h : Holds m a e (b ∷ bs)) (room : size ≤ b.size) where
  -- No sum of `Memory_alloc` wraps.
  take_block-sums :
      (add32 (add32 size header_size) 4 ≡ size + header_size + 4)
      × (add32 (add32 a header_size) size ≡ a + header_size + size)
      × (add32 a header_size ≡ a + header_size)
  take_block-sums =
      let far = Holds-extent m (a + header_size + b.size) e bs h.1 in
      (omega arith, omega arith, omega arith)

  whole_block :
      ltb (size + header_size + 4) b.size ≡ false
      → Holds (take_block m a size) a e (split size b bs)
  unfolding take_block split
  whole_block p =
      let n = a + header_size + b.size in
      let far = Holds-extent m n e bs h.1 in
      rw (h.0, take_block-sums.0, p)
        (write_self m a _, Holds-frame m _ n e bs h.1 (λ x q r. write-ne m a _ x (omega arith)))

  two_blocks :
      ltb (size + header_size + 4) b.size ≡ true → Holds (take_block m a size) a e (split size b bs)
  unfolding take_block split
  two_blocks p =
      let n = a + header_size + b.size in
      let far = Holds-extent m n e bs h.1 in
      let q : size + header_size + 4 < b.size = ground arith in
      let up : a + header_size + size ≢ a = omega arith in
      let rest : sub32 (sub32 b.size size) header_size ≡ b.size - size - header_size =
        omega arith in
      let last : a + header_size + size + header_size + (b.size - size - header_size) ≡ n =
        omega arith in
      rw (h.0, take_block-sums.0, take_block-sums.1, p, rest, last)
        (
          rw (==_self a),
          (
            rw (==_of_ne up, ==_self (a + header_size + size)),
            Holds-frame m _ n e bs h.1 (λ x r s.
                let at_a : x ≢ a = omega arith in
                let at_new : x ≢ a + header_size + size = omega arith in
                rw (==_of_ne at_a, ==_of_ne at_new)),
          ),
        )

  take_block-Holds : Holds (take_block m a size) a e (split size b bs)
  take_block-Holds = elim (Bool-cases (ltb (size + header_size + 4) b.size)) [
    | inl wide ↦ two_blocks wide
    | inr narrow ↦ whole_block narrow
  ]

  take_block_below : (x : Addr) → x < a → take_block m a size x ≡ m x
  unfolding take_block
  take_block_below x q =
      let far = Holds-extent m (a + header_size + b.size) e bs h.1 in
      let new = add32 (add32 a header_size) size in
      let at_a : x ≢ a = omega arith in
      let up : x ≢ new = omega arith in
      elim (Bool-cases (ltb (add32 (add32 size header_size) 4) (m a).size)) [
        | inl wide ↦ rw (wide, ==_of_ne at_a, ==_of_ne up)
        | inr narrow ↦ rw narrow (write-ne m a _ x (omega arith))
      ]

-- What the loop does on the blocks `bs` from `a` up to `e`, given first fit's answer on them.
abbrev Allocated : ℕ → ℕ → Cells → Addr → Addr → List Block → Option (Addr × List Block) → Type 0
Allocated k size m a e bs none = alloc_loop k size m (link bs a) ≡ some (null, m)
Allocated k size m a e bs (some (p, cs)) =
    (m' : Cells) × (alloc_loop k size m (link bs a) ≡ some (p, m'))
    × Holds m' a e cs
    × ((x : Addr) → x < a → m' x ≡ m x)
    × ((x : Addr) → link cs x ≡ link bs x)

module _ (size : ℕ) (m : Cells) (a : Addr) (b : Block) (bs : List Block) (e : Addr) (low : 0 < a)
    (bound : e + 4 ≤ 2 ^ 32) (h : Holds m a e (b ∷ bs)) (k : ℕ) where
  found_round :
      fits size b ≡ true
      → Allocated (suc k) size m a e (b ∷ bs) (some (a + header_size, split size b bs))
  unfolding alloc_loop
  found_round p =
      let room = (fits_le size b p).1 in
      let here : a ≢ null = omega arith in
      (
        take_block m a size,
        rw (==_of_ne here, h.0, p, (take_block-sums size m a b bs e low bound h room).2),
        take_block-Holds size m a b bs e low bound h room,
        take_block_below size m a b bs e low bound h room,
        λ x. link-split size b bs x,
      )

  passed_round :
      (o : Option (Addr × List Block))
      → fits size b ≡ false
      → Allocated k size m (a + header_size + b.size) e bs o
      → Allocated (suc k) size m a e (b ∷ bs) (Option.map (λ (p, cs). (p, b ∷ cs)) o)
  unfolding alloc_loop
  passed_round none p run = let here : a ≢ null = omega arith in rw (==_of_ne here, h.0, p) run
  passed_round (some (q, cs)) p (m', run, holds, same, ends) =
      let here : a ≢ null = omega arith in
      (
        m',
        rw (==_of_ne here, h.0, p) run,
        (same a (omega arith) ∙ rw ends h.0, holds),
        λ x r. same x (omega arith),
        λ x. refl,
      )

alloc_loop_lem :
    (k size : ℕ) (m : Cells) (a e : Addr) (bs : List Block)
    → 0 < a
    → e + 4 ≤ 2 ^ 32
    → Holds m a e bs
    → length bs < k
    → Allocated k size m a e bs (alloc size a bs)
unfolding alloc_loop alloc
alloc_loop_lem zero size m a e bs low bound h fuel = absurd (omega arith)
alloc_loop_lem (suc k) size m a e [] low bound h fuel = refl
alloc_loop_lem (suc k) size m a e (b ∷ bs) low bound h fuel = elim (Bool-cases (fits size b)) [
  | inl p ↦ rw (p, Allocated) (found_round size m a b bs e low bound h k p)
  | inr p ↦ rw p (
      passed_round size m a b bs e low bound h k (alloc size (a + header_size + b.size) bs) p (
        alloc_loop_lem k size m (a + header_size + b.size) e bs (omega arith) bound h.1
          (omega arith)))
]

-- What a call of `Memory_alloc` does, given first fit's answer on the blocks: NULL and no change, or
-- the address and a well-formed heap in the same place.
abbrev pub Served : Heap → ℕ → Option (Addr × List Block) → Type 0
Served s size none = memory_alloc s size ≡ some (null, s)
Served s size (some (p, cs)) =
    (s' : Heap) × (memory_alloc s size ≡ some (p, s'))
    × IsHeap s' cs
    × (s'.heap_start ≡ s.heap_start)
    × (s'.heap_end ≡ s.heap_end)

Positive-split :
    (size : ℕ) (b : Block) (bs : List Block)
    → 0 < size
    → Positive (b ∷ bs)
    → Positive (split size b bs)
unfolding split
Positive-split size b bs pos h = elim (Bool-cases (ltb (size + header_size + 4) b.size)) [
  | inl wide ↦ rw wide (pos, (ground arith, h.1))
  | inr narrow ↦ rw narrow h
]

abbrev AllPositive : Option (Addr × List Block) → Type 0
AllPositive none = Unit
AllPositive (some (p, cs)) = Positive cs

AllPositive-map :
    (b : Block) (o : Option (Addr × List Block))
    → 0 < b.size
    → AllPositive o
    → AllPositive (Option.map (λ (p, cs). (p, b ∷ cs)) o)
AllPositive-map b none pos h = tt
AllPositive-map b (some (p, cs)) pos h = (pos, h)

alloc-AllPositive :
    (size a : ℕ) (bs : List Block) → 0 < size → Positive bs → AllPositive (alloc size a bs)
unfolding alloc
alloc-AllPositive size a [] pos h = tt
alloc-AllPositive size a (b ∷ bs) pos h = elim (Bool-cases (fits size b)) [
  | inl p ↦ rw (p, AllPositive) (Positive-split size b bs pos h)
  | inr p ↦
      rw (p, AllPositive)
        (AllPositive-map b (alloc size (a + header_size + b.size) bs) h.0
          (alloc-AllPositive size (a + header_size + b.size) bs pos h.1))
]

pub link-start : (m : Cells) (a e : Addr) (bs : List Block) → a < e → Holds m a e bs → link bs a ≡ a
link-start m a e [] p h = absurd (omega arith)
link-start m a e (b ∷ bs) p h = refl

serve :
    (s : Heap) (size : ℕ) (bs : List Block) (o : Option (Addr × List Block))
    → IsHeap s bs
    → size ≢ 0
    → Allocated (rounds s) (align4 size) s.cell s.heap_start s.heap_end bs o
    → AllPositive o
    → Served s size o
unfolding memory_alloc
serve s size bs none h ne run pos =
    let start = link-start s.cell s.heap_start s.heap_end bs h.ordered h.holds in
    rw (==_of_ne ne) (ap (Option.map (λ (q, m). (q, record s { cell = m }))) (rw start at run))
serve s size bs (some (p, cs)) h ne (m', run, holds, below, ends) pos =
    let start = link-start s.cell s.heap_start s.heap_end bs h.ordered h.holds in
    (
      record s { cell = m' },
      rw (==_of_ne ne) (ap (Option.map (λ (q, m). (q, record s { cell = m }))) (rw start at run)),
      record {
        positive = h.positive;
        ordered = h.ordered;
        bounded = h.bounded;
        holds = holds;
        sizes = pos;
      },
      refl,
      refl,
    )

-- On a well-formed heap `Memory_alloc` of a size above 0 that can be rounded up in 32 bits serves
-- first fit's answer for the rounded size: it always returns, it returns NULL and changes nothing
-- if no free block fits, and otherwise the payload of the first that does, leaving a well-formed
-- heap with that block taken.
pub memory_alloc_lem :
    (s : Heap) (bs : List Block) (size : ℕ)
    → IsHeap s bs
    → 0 < size
    → size + 3 < 2 ^ 32
    → Served s size (alloc (align4 size) s.heap_start bs)
memory_alloc_lem s bs size h pos small =
    serve s size bs (alloc (align4 size) s.heap_start bs) h (omega arith)
      (alloc_loop_lem (rounds s) (align4 size) s.cell s.heap_start s.heap_end bs h.positive
        h.bounded h.holds (length-lt-rounds h))
      (alloc-AllPositive (align4 size) s.heap_start bs (omega arith) h.sizes)
