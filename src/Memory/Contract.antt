-- ===== src/Memory/Contract.antt =====
-- What callers of kernel/memory/memory.c may rely on.
use cocos_os.Base.{
  ℕ, zero, suc, ◌+◌, ◌≤◌, ◌<◌, ◌^◌, ◌≡◌, refl, sym, ◌∙◌, ◌⊎◌, inl, inr, Option, none, some, List,
  [], ◌∷◌, arith, add32, length, ap, some_inj, ==_of_ne, ◌≢◌, ◌↔◌, Bool-cases,
}
use mathlib.Core.Path.{subst}
use cocos_os.Memory.{
  Addr, null, header_size, Cells, Heap, rounds, align4, memory_alloc, memory_free, get_free_loop,
  memory_get_free,
}
use cocos_os.Memory.Blocks.{Block, alloc, release, coalesce_all, free_bytes}
use cocos_os.Memory.Layout.{link, Holds, IsHeap, Holds-extent, length-lt-rounds}
use cocos_os.Memory.Alloc.{Served, memory_alloc_lem, link-start}
use cocos_os.Memory.Free.{memory_free_lem}
use cocos_os.Memory.Join.{Joined, Restored, alloc-Restored}
use cocos_os.Memory.Safety.{
  InUse, InUse-le, InUse-IsPayload, Safe, alloc-Safe, NoRoom, alloc-none_iff,
}

module _ (s : Heap) (bs : List Block) (size : ℕ) where
  -- First fit's answer behind a call that returned an address.
  Given : Addr → Heap → Type 0
  Given p s' =
      (cs : List Block) × (alloc (align4 size) s.heap_start bs ≡ some (p, cs))
      × IsHeap s' cs
      × (s'.heap_start ≡ s.heap_start)

  Given-of_Served :
      (p : Addr) (s' : Heap) (o : Option (Addr × List Block))
      → alloc (align4 size) s.heap_start bs ≡ o
      → Served s size o
      → memory_alloc s size ≡ some (p, s')
      → p ≢ null
      → Given p s'
  unfolding Given
  Given-of_Served p s' none e run got ne =
      absurd (ne (sym (ap (λ (r : Addr × Heap). r.0) (some_inj (sym run ∙ got)))))
  Given-of_Served p s' (some (q, cs)) e (t, run, heap, start, end) got ne =
      let same = some_inj (sym run ∙ got) in
      let at : q ≡ p = ap (λ (r : Addr × Heap). r.0) same in
      let as_s : t ≡ s' = ap (λ (r : Addr × Heap). r.1) same in
      (
        cs,
        e ∙ ap (λ x. some (x, cs)) at,
        subst (λ x. IsHeap x cs) as_s heap,
        subst (λ (x : Heap). x.heap_start ≡ s.heap_start) as_s start,
      )

  given :
      (p : Addr) (s' : Heap)
      → IsHeap s bs
      → 0 < size
      → size + 3 < 2 ^ 32
      → memory_alloc s size ≡ some (p, s')
      → p ≢ null
      → Given p s'
  given p s' h pos small got ne =
      Given-of_Served p s' (alloc (align4 size) s.heap_start bs) refl
        (memory_alloc_lem s bs size h pos small) got ne

-- On a well-formed heap, for a size above 0 that can be rounded up in 32 bits: a block that
-- `Memory_alloc` hands out holds the bytes asked for, every block handed out before is still
-- there, none of them shares a byte with it, and the heap stays well formed.
pub memory_alloc_disjoint :
    (s : Heap) (bs : List Block) (size : ℕ) (p : Addr) (s' : Heap)
    → IsHeap s bs
    → 0 < size
    → size + 3 < 2 ^ 32
    → memory_alloc s size ≡ some (p, s')
    → p ≢ null
    → (cs : List Block) × IsHeap s' cs
      × ((n : ℕ) × (size ≤ n) × InUse p n s'.heap_start cs)
      × ((q k : ℕ)
          → InUse q k s.heap_start bs
          → InUse q k s'.heap_start cs × ((q + k ≤ p) ⊎ (p + size ≤ q)))
unfolding Given
memory_alloc_disjoint s bs size p s' h pos small got ne =
    let (cs, e, heap, start) = given s bs size p s' h pos small got ne in
    let safe : Safe (align4 size) s.heap_start bs (some (p, cs)) =
      subst (Safe (align4 size) s.heap_start bs) e (alloc-Safe (align4 size) s.heap_start bs) in
    let (n, room, here) = safe.0 in
    (
      cs,
      heap,
      (n, omega arith, rw start here),
      λ q k u.
          rw start
            ((safe.1 q k u).0, elim (safe.1 q k u).1 [ inl l ↦ inl l | inr r ↦ inr (omega arith) ]),
    )

-- An address that first fit gives is not NULL.
null-none :
    (s : Heap) (bs : List Block) (size : ℕ) (o : Option (Addr × List Block))
    → Safe (align4 size) s.heap_start bs o
    → 0 < s.heap_start
    → Served s size o
    → memory_alloc s size ≡ some (null, s)
    → o ≡ none
null-none s bs size none safe pos served e = refl
null-none s bs size (some (p, cs)) safe pos (t, run, heap, start, end) e =
    let zero_p : p ≡ null = ap (λ (r : Addr × Heap). r.0) (some_inj (sym run ∙ e)) in
    let (n, room, here) = safe.0 in absurd (omega (arith, InUse-le p n s.heap_start cs here))

-- On a well-formed heap, for a size above 0 that can be rounded up in 32 bits, `Memory_alloc`
-- returns NULL, changing nothing, exactly where no free block has room for the size rounded up to
-- a multiple of four.
pub memory_alloc-null_iff :
    (s : Heap) (bs : List Block) (size : ℕ)
    → IsHeap s bs
    → 0 < size
    → size + 3 < 2 ^ 32
    → (memory_alloc s size ≡ some (null, s)) ↔ NoRoom (align4 size) bs
memory_alloc-null_iff s bs size h pos small =
    let (down, up) = alloc-none_iff (align4 size) s.heap_start bs in
    let served = memory_alloc_lem s bs size h pos small in
    (
      λ e. down (
          null-none s bs size (alloc (align4 size) s.heap_start bs) (alloc-Safe _ _ bs) h.positive
            served e),
      λ r. subst (Served s size) (up r) served,
    )

-- On a well-formed heap whose free neighbours are joined, freeing what `Memory_alloc` has just
-- returned for a size above 0 that can be rounded up gives back the very blocks from before.
pub memory_free-alloc :
    (s : Heap) (bs : List Block) (size : ℕ) (p : Addr) (s' : Heap)
    → IsHeap s bs
    → Joined bs
    → 0 < size
    → size + 3 < 2 ^ 32
    → memory_alloc s size ≡ some (p, s')
    → p ≢ null
    → (t : Heap) × (memory_free s' p ≡ some t) × IsHeap t bs × (t.heap_start ≡ s.heap_start)
unfolding Given
memory_free-alloc s bs size p s' h joined pos small got ne =
    let (cs, e, heap, start) = given s bs size p s' h pos small got ne in
    let safe : Safe (align4 size) s.heap_start bs (some (p, cs)) =
      subst (Safe (align4 size) s.heap_start bs) e (alloc-Safe (align4 size) s.heap_start bs) in
    let back : Restored s.heap_start bs (some (p, cs)) =
      subst (Restored s.heap_start bs) e (alloc-Restored (align4 size) s.heap_start bs joined) in
    let (n, room, here) = safe.0 in
    let (t, run, after, begins, ends) =
      memory_free_lem s' cs p heap (rw start (InUse-IsPayload p n s.heap_start cs here)) in
    (
      t,
      run,
      subst (IsHeap t) (ap (λ a. coalesce_all (release p a cs)) start ∙ back.0) after,
      begins ∙ start,
    )

get_free_loop_lem :
    (k : ℕ) (m : Cells) (a e total : ℕ) (bs : List Block)
    → 0 < a
    → total + e < 2 ^ 32 + a
    → Holds m a e bs
    → length bs < k
    → get_free_loop k m (link bs a) total ≡ some (total + free_bytes bs)
unfolding get_free_loop free_bytes
get_free_loop_lem zero m a e total bs low bound h fuel = absurd (omega arith)
get_free_loop_lem (suc k) m a e total [] low bound h fuel = ap some (omega arith)
get_free_loop_lem (suc k) m a e total (b ∷ bs) low bound h fuel =
    let n = a + header_size + b.size in
    let far = Holds-extent m n e bs h.1 in
    let here : a ≢ null = omega arith in
    let sum : add32 total b.size ≡ total + b.size = omega arith in
    elim (Bool-cases b.used) [
      | inl u ↦
          rw (==_of_ne here, h.0, u)
            (get_free_loop_lem k m n e total bs (omega arith) (omega arith) h.1 (omega arith)
              ∙ ap some (omega arith))
      | inr u ↦
          rw (==_of_ne here, h.0, u, sum)
            (get_free_loop_lem k m n e (total + b.size) bs (omega arith) (omega arith) h.1
                (omega arith)
              ∙ ap some (omega arith))
    ]

-- On a well-formed heap `Memory_get_free` returns the number of payload bytes in the free blocks,
-- with no wrap-around.
pub memory_get_free_lem :
    (s : Heap) (bs : List Block) → IsHeap s bs → memory_get_free s ≡ some (free_bytes bs)
unfolding memory_get_free
memory_get_free_lem s bs h =
    let start = link-start s.cell s.heap_start s.heap_end bs h.ordered h.holds in
    let none_yet : 0 + free_bytes bs ≡ free_bytes bs = omega arith in
    rw start at (
      get_free_loop_lem (rounds s) s.cell s.heap_start s.heap_end 0 bs h.positive
        (omega (arith, h.bounded, h.positive)) h.holds (length-lt-rounds h)
      ∙ ap some none_yet)
