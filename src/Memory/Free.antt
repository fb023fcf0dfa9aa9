-- ===== src/Memory/Free.antt =====
-- `Memory_free` and `Memory_get_free` of kernel/memory/memory.c on a well-formed heap.
use cocos_os.Base.{
  ◌+◌, ◌-◌, ◌≤◌, ◌<◌, ◌^◌, ◌≡◌, refl, ◌∙◌, ◌⊎◌, inl, inr, false, some, List, [], ◌∷◌, arith, ltb,
  leb, ◌==◌, sub32, length, ==_of_ne, ==_self, ◌≢◌, Bool-cases,
}
use cocos_os.Memory.{
  Addr, null, header, header_size, Cells, write, Heap, rounds, coalesce_loop, memory_free,
}
use cocos_os.Memory.Blocks.{Block, Positive, coalesce_all, release}
use cocos_os.Memory.Layout.{
  link, Holds, IsHeap, Holds-extent, Holds-frame, length-lt-rounds, write-ne, write_self,
}
use cocos_os.Memory.Coalesce.{coalesce_loop_all, Positive-coalesce}

-- `p` is the payload's address of a block of `bs`, which begin at `a`.
abbrev pub IsPayload : Addr → Addr → List Block → Type 0
IsPayload p a [] = ⊥
IsPayload p a (b ∷ bs) = (a + header_size ≡ p) ⊎ IsPayload p (a + header_size + b.size) bs

IsPayload-le : (p a : Addr) (bs : List Block) → IsPayload p a bs → a + header_size ≤ p
IsPayload-le p a [] h = absurd h
IsPayload-le p a (b ∷ bs) (inl h) = omega arith
IsPayload-le p a (b ∷ bs) (inr h) = omega (arith, IsPayload-le p (a + header_size + b.size) bs h)

-- The write that `Memory_free` makes at the header before `p`.
abbrev freed : Cells → Addr → Cells
freed m p =
    write m (p - header_size) (header (m (p - header_size)).size false (m (p - header_size)).next)

link-release : (p a x : Addr) (bs : List Block) → link (release p a bs) x ≡ link bs x
unfolding release
link-release p a x [] = refl
link-release p a x (b ∷ bs) = ground arith

Holds-release :
    (m : Cells) (p a e : Addr) (bs : List Block)
    → Holds m a e bs
    → IsPayload p a bs
    → Holds (freed m p) a e (release p a bs)
unfolding release
Holds-release m p a e [] h is = absurd is
Holds-release m p a e (b ∷ bs) h (inl is) =
    let n = a + header_size + b.size in
    let far = Holds-extent m n e bs h.1 in
    let here : a + header_size - header_size ≡ a = omega arith in
    rw (← is, ==_self, here)
      (
        write_self m a _ ∙ rw h.0,
        Holds-frame m _ n e bs h.1
            (λ x low q. write-ne m (a + header_size - header_size) _ x (omega arith)),
      )
Holds-release m p a e (b ∷ bs) h (inr is) =
    let n = a + header_size + b.size in
    let far = IsPayload-le p n bs is in
    let other : a + header_size ≢ p = omega arith in
    rw (==_of_ne other, link-release p n n bs)
      (write-ne m (p - header_size) _ a (omega arith) ∙ h.0, Holds-release m p n e bs h.1 is)

IsPayload-lt :
    (m : Cells) (p a e : Addr) (bs : List Block)
    → Holds m a e bs
    → Positive bs
    → IsPayload p a bs
    → p < e
IsPayload-lt m p a e [] h pos is = absurd is
IsPayload-lt m p a e (b ∷ bs) h pos (inl is) =
    omega (arith, Holds-extent m (a + header_size + b.size) e bs h.1)
IsPayload-lt m p a e (b ∷ bs) h pos (inr is) =
    IsPayload-lt m p (a + header_size + b.size) e bs h.1 pos.1 is

Positive-release : (p a : Addr) (bs : List Block) → Positive bs → Positive (release p a bs)
unfolding release
Positive-release p a [] h = h
Positive-release p a (b ∷ bs) h = elim (Bool-cases (a + header_size == p)) [
  | inl here ↦ rw here h
  | inr other ↦ rw other (h.0, Positive-release p (a + header_size + b.size) bs h.1)
]

Positive-coalesce_all : (bs : List Block) → Positive bs → Positive (coalesce_all bs)
Positive-coalesce_all [] h = h
Positive-coalesce_all (b ∷ bs) h = Positive-coalesce b bs h

length-release : (p a : Addr) (bs : List Block) → length (release p a bs) ≡ length bs
unfolding release
length-release p a [] = refl
length-release p a (b ∷ bs) = ground (arith, length-release p (a + header_size + b.size) bs)

-- Inside the heap the guards of `Memory_free` pass.
memory_free-run :
    (s : Heap) (ptr : Addr)
    → ptr ≢ null
    → s.heap_start ≤ ptr
    → ptr < s.heap_end
    → header_size ≤ ptr
    → ptr < 2 ^ 32
    → {m : Cells} → coalesce_loop (rounds s) (freed s.cell ptr) s.heap_start ≡ some m
    → memory_free s ptr ≡ some (record s { cell = m })
unfolding memory_free
memory_free-run s ptr ne low high large small run =
    let wrap : sub32 ptr header_size ≡ ptr - header_size = omega arith in
    let first : ltb ptr s.heap_start ≡ false = ground arith in
    let last : leb s.heap_end ptr ≡ false = ground arith in rw (==_of_ne ne, first, last, wrap, run)

-- On a well-formed heap `Memory_free` of the payload of one of its blocks returns: it marks that
-- block free and joins all free neighbours, and the heap stays well formed in its place.
pub memory_free_lem :
    (s : Heap) (bs : List Block) (ptr : Addr)
    → IsHeap s bs
    → IsPayload ptr s.heap_start bs
    → (s' : Heap) × (memory_free s ptr ≡ some s')
      × IsHeap s' (coalesce_all (release ptr s.heap_start bs))
      × (s'.heap_start ≡ s.heap_start)
      × (s'.heap_end ≡ s.heap_end)
unfolding memory_free
memory_free_lem s bs ptr h is =
    let low = IsPayload-le ptr s.heap_start bs is in
    let high = IsPayload-lt s.cell ptr s.heap_start s.heap_end bs h.holds h.sizes is in
    let (m, run, holds) =
      coalesce_loop_all (rounds s) (freed s.cell ptr) s.heap_start s.heap_end
        (release ptr s.heap_start bs) h.positive h.ordered (omega (arith, h.bounded))
        (Holds-release s.cell ptr s.heap_start s.heap_end bs h.holds is)
        (omega (arith, length-lt-rounds h, length-release ptr s.heap_start bs)) in
    (
      record s { cell = m },
      memory_free-run s ptr (omega arith) (omega arith) high (omega arith)
          (omega (arith, h.bounded)) run,
      record {
        positive = h.positive;
        ordered = h.ordered;
        bounded = h.bounded;
        holds = holds;
        sizes = Positive-coalesce_all _ (Positive-release ptr s.heap_start bs h.sizes);
      },
      refl,
      refl,
    )
