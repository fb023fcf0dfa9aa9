-- ===== src/Memory/Layout.antt =====
-- How the store of kernel/memory/memory.c holds a list of blocks.
use cocos_os.Base.{
  ℕ, ◌+◌, ◌-◌, ◌≤◌, ◌<◌, ◌^◌, ◌≡◌, ◌≢◌, ==_of_ne, ==_self, ◌∙◌, false, List, [], ◌∷◌, arith, length,
}
use cocos_os.Memory.{
  Addr, null, Header, header, header_size, Cells, write, Heap, memory_init, rounds,
}
use cocos_os.Memory.Blocks.{Block, block, extent, Positive}

pub write-ne : (m : Cells) (a : Addr) (h : Header) (x : Addr) → x ≢ a → write m a h x ≡ m x
write-ne m a h x ne = rw (==_of_ne ne)

pub write_self : (m : Cells) (a : Addr) (h : Header) → write m a h a ≡ h
write_self m a h = rw (==_self a)

-- `next` of the block before `bs`, if `bs` begins at `x`.
abbrev pub link : List Block → Addr → Addr
link [] x = null
link (_ ∷ _) x = x

-- From `a` up to `e` the store holds the headers of `bs`, one block after another.
abbrev pub Holds : Cells → Addr → Addr → List Block → Type 0
Holds m a e [] = a ≡ e
Holds m a e (b ∷ bs) =
    (m a ≡ header b.size b.used (link bs (a + header_size + b.size)))
    × Holds m (a + header_size + b.size) e bs

-- The heap is well formed: it lies in the address space, and its blocks are `bs`.
pub record IsHeap (s : Heap) (bs : List Block) : Type 0 where
  pub positive : 0 < s.heap_start
  pub ordered : s.heap_start < s.heap_end
  pub bounded : s.heap_end + 4 ≤ 2 ^ 32
  pub holds : Holds s.cell s.heap_start s.heap_end bs
  pub sizes : Positive bs

pub Holds-extent : (m : Cells) (a e : Addr) (bs : List Block) → Holds m a e bs → e ≡ a + extent bs
Holds-extent m a e [] h = omega arith
Holds-extent m a e (b ∷ bs) h = omega (arith, Holds-extent m (a + header_size + b.size) e bs h.1)

pub length-le-extent : (bs : List Block) → length bs ≤ extent bs
length-le-extent [] = omega arith
length-le-extent (b ∷ bs) = omega (arith, length-le-extent bs)

-- The fuel of the loops over the blocks is enough.
pub length-lt-rounds : {s : Heap} {bs : List Block} → IsHeap s bs → length bs < rounds s
length-lt-rounds {s} {bs} h =
    omega (arith, Holds-extent s.cell s.heap_start s.heap_end bs h.holds, length-le-extent bs)

-- The blocks depend on the store inside their range only.
pub Holds-frame :
    (m g : Cells) (a e : Addr) (bs : List Block)
    → Holds m a e bs
    → ((x : Addr) → a ≤ x → x < e → g x ≡ m x)
    → Holds g a e bs
Holds-frame m g a e [] h same = h
Holds-frame m g a e (b ∷ bs) h same =
    let n = a + header_size + b.size in
    let far = Holds-extent m n e bs h.1 in
    (
      same a (omega arith) (omega arith) ∙ h.0,
      Holds-frame m g n e bs h.1 (λ x p q. same x (omega arith) q),
    )

-- `Memory_init` of an area that is longer than a header, does not start at 0 and ends four bytes
-- or more before 2 ^ 32 makes a well-formed heap of one free block, all of the area but the
-- header.
pub memory_init-IsHeap :
    (m : Cells) (start size : ℕ)
    → 0 < start
    → header_size < size
    → start + size + 4 ≤ 2 ^ 32
    → IsHeap (memory_init m start size) (block (size - header_size) false ∷ [])
unfolding memory_init
memory_init-IsHeap m start size hp hs hb = record {
  positive = hp;
  ordered = omega arith;
  bounded = omega arith;
  holds = (ground arith, omega arith);
  sizes = (omega arith, tt);
}
