-- ===== src/Memory/Lifecycle.antt =====
-- What any calls of Memory_alloc and Memory_free of kernel/memory/memory.c lead to.
use cocos_os.Base.{
  In, ℕ, ◌+◌, ◌-◌, ◌^◌, ◌<◌, ◌≤◌, ◌≡◌, ◌≢◌, refl, sym, ap, ap₂, ◌∙◌, inl, inr, false, some, List,
  [], ◌∷◌, arith, Bool-cases,
}
use mathlib.Core.Path.{subst}
use cocos_os.Memory.{Addr, null, header_size, Cells, Heap, memory_init, memory_alloc, memory_free}
use cocos_os.Memory.Blocks.{Block, block, release, coalesce_all}
use cocos_os.Memory.Layout.{IsHeap, Holds-extent, memory_init-IsHeap}
use cocos_os.Memory.Free.{IsPayload, memory_free_lem}
use cocos_os.Memory.Join.{Joined}
use cocos_os.Memory.Safety.{InUse, InUse-IsPayload}
use cocos_os.Memory.HandedOut.{without, Kept, alloc-Kept, free-Kept}

-- The heap and the addresses that are handed out, after calls that ask for sizes above 0 that can be rounded
-- up, and free what was handed out.
pub data Calls (s0 : Heap) : List Addr → Heap → Type 0 where
  none_yet : Calls s0 [] s0
  obtain :
      {ps : List Addr} {s : Heap} (size : ℕ) (p : Addr) (s' : Heap)
      → Calls s0 ps s
      → 0 < size
      → size + 3 < 2 ^ 32
      → memory_alloc s size ≡ some (p, s')
      → p ≢ null
      → Calls s0 (p ∷ ps) s'
  free :
      {ps : List Addr} {s : Heap} (p : Addr) (s' : Heap)
      → Calls s0 ps s
      → In ps p
      → memory_free s p ≡ some s'
      → Calls s0 (without p ps) s'

Calls-Kept :
    (start end : Addr) (s0 : Heap) (bs : List Block)
    → Kept start end [] s0 bs
    → (ps : List Addr) (s : Heap) → Calls s0 ps s
    → (cs : List Block) × Kept start end ps s cs
Calls-Kept start end s0 bs h _ _ none_yet = (bs, h)
Calls-Kept start end s0 bs h _ _ (obtain {ps = ps} {s = s} size p s' calls pos small got ne) =
    let (cs, kept) = Calls-Kept start end s0 bs h ps s calls in
    let (ds, now, added) = alloc-Kept start end ps s cs size p s' kept pos small got ne in (ds, now)
Calls-Kept start end s0 bs h _ _ (free {ps = ps} {s = s} p s' calls i got) =
    let (cs, kept) = Calls-Kept start end s0 bs h ps s calls in
    (coalesce_all (release p start cs), free-Kept start end ps s cs p s' kept i got)

-- Blocks of which none is in use are one block.
one_block :
    (s : Heap) (bs : List Block)
    → IsHeap s bs
    → Joined bs
    → ((q k : ℕ) → InUse q k s.heap_start bs → ⊥)
    → bs ≡ block (s.heap_end - s.heap_start - header_size) false ∷ []
one_block s [] h joined unused =
    absurd (omega (arith, h.ordered, Holds-extent s.cell s.heap_start s.heap_end [] h.holds))
one_block s (b ∷ []) h joined unused = elim (Bool-cases b.used) [
  | inl used ↦ absurd (unused _ _ (inl (used, refl, refl)))
  | inr idle ↦
      (let size : b.size ≡ s.heap_end - s.heap_start - header_size =
          omega (arith, Holds-extent s.cell s.heap_start s.heap_end (b ∷ []) h.holds) in
        ap (λ c. c ∷ []) (ap₂ block size idle))
]
one_block s (b ∷ c ∷ cs) h joined unused = elim (Bool-cases b.used) [
  | inl used ↦ absurd (unused _ _ (inl (used, refl, refl)))
  | inr idle ↦ elim (Bool-cases c.used) [
    | inl used ↦ absurd (unused _ _ (inr (inl (used, refl, refl))))
    | inr idle' ↦ absurd (ground arith)
  ]
]

pub start-Kept :
    (m : Cells) (start size : ℕ)
    → 0 < start
    → header_size < size
    → start + size + 4 ≤ 2 ^ 32
    → Kept start
        (start + size)
        []
        (memory_init m start size)
        (block (size - header_size) false ∷ [])
unfolding memory_init
start-Kept m start size positive room bounded = record {
  heap_ok = memory_init-IsHeap m start size positive room bounded;
  joined = (tt, tt);
  begins = refl;
  ends = omega arith;
  handed_out = λ q i. absurd i;
  only = λ q k used. elim used [ inl h ↦ cc h.0 | inr h ↦ absurd h ];
}

pub can_free :
    (start end : Addr) (ps : List Addr) (s : Heap) (bs : List Block) (p : Addr)
    → Kept start end ps s bs
    → In ps p
    → (s' : Heap) × (memory_free s p ≡ some s')
can_free start end ps s bs p h i =
    let (n, used) = h.handed_out p i in
    let (t, run, heap, at, to) =
      memory_free_lem s bs p h.heap_ok
        (subst (λ a. IsPayload p a bs) (sym h.begins) (InUse-IsPayload p n start bs used)) in
    (t, run)

freed :
    (start size : ℕ) (ps : List Addr) (s : Heap) (bs : List Block)
    → Kept start (start + size) ps s bs
    → ps ≡ []
    → bs ≡ block (size - header_size) false ∷ []
freed start size ps s bs h e =
    let area : s.heap_end - s.heap_start - header_size ≡ size - header_size =
      omega (arith, h.begins, h.ends) in
    one_block s bs h.heap_ok h.joined
      (λ q k used. subst (λ l. In l q) e (h.only q k (subst (λ a. InUse q k a bs) h.begins used)))
    ∙ ap (λ n. block n false ∷ []) area

-- Any calls of `Memory_alloc` and `Memory_free` after a `Memory_init` of an area that is longer than a header,
-- does not start at 0 and ends four bytes or more before 2 ^ 32, which ask for sizes above 0 that can be
-- rounded up and free only what was handed out: the heap stays well formed; what is handed out can be freed;
-- and once all of it has been freed, the heap is one free block of all the area but a header again.
pub Calls-memory_free :
    (m : Cells) (start size : ℕ) (ps : List Addr) (s : Heap)
    → 0 < start
    → header_size < size
    → start + size + 4 ≤ 2 ^ 32
    → Calls (memory_init m start size) ps s
    → ((bs : List Block) × IsHeap s bs)
      × ((p : Addr) → In ps p → (s' : Heap) × (memory_free s p ≡ some s'))
      × (ps ≡ [] → IsHeap s (block (size - header_size) false ∷ []))
Calls-memory_free m start size ps s positive room bounded calls =
    let s0 = memory_init m start size in
    let (bs, kept) =
      Calls-Kept start (start + size) s0 (block (size - header_size) false ∷ [])
        (start-Kept m start size positive room bounded) ps s calls in
    (
      (bs, kept.heap_ok),
      λ p i. can_free start (start + size) ps s bs p kept i,
      λ e. subst (IsHeap s) (freed start size ps s bs kept e) kept.heap_ok,
    )
