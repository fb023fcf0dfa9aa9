-- ===== src/Memory/Coalesce.antt =====
-- The loop of `coalesce` of kernel/memory/memory.c on a well-formed heap.
use cocos_os.Base.{
  ℕ, zero, suc, ◌+◌, ◌<◌, ◌^◌, ◌≡◌, refl, ◌∙◌, inl, inr, true, false, not, ◌&&◌, some, List, [],
  ◌∷◌, arith, length, ap, ◌≢◌, ==_of_ne, Bool-cases,
}
use cocos_os.Memory.{Addr, null, header, header_size, Cells, write, coalesce_step, coalesce_loop}
use cocos_os.Memory.Blocks.{Block, block, Positive, coalesce, coalesce_all}
use cocos_os.Memory.Layout.{link, Holds, write-ne, write_self, Holds-extent, Holds-frame}

link-coalesce : (c : Block) (cs : List Block) (x : Addr) → link (coalesce c cs) x ≡ x
unfolding coalesce
link-coalesce c [] x = refl
link-coalesce c (d ∷ ds) x =
    ground (arith, link-coalesce (block (c.size + (d.size + 12)) false) ds x)

-- The loop on the blocks `b ∷ bs` from `a` up to `e` leaves those that `coalesce` gives, and
-- writes nothing below `a`.
abbrev Coalesced : ℕ → Cells → Addr → Block → List Block → Addr → Type 0
Coalesced k m a b bs e =
    (m' : Cells) × (coalesce_loop k m a ≡ some m')
    × Holds m' a e (coalesce b bs)
    × ((x : Addr) → x < a → m' x ≡ m x)

-- One round joins `b` and `c` if both are free, and goes on to `c` otherwise.
module _ (m : Cells) (a : Addr) (b c : Block) (cs : List Block) (e : Addr) (bound : e < 2 ^ 32)
    (low : 0 < a) (h : Holds m a e (b ∷ c ∷ cs)) where
  abbrev joined : Cells
  joined = write m a (
      header (b.size + (c.size + header_size)) false
        (link cs (a + header_size + b.size + header_size + c.size)))

  coalesce_step-join : (not b.used && not c.used) ≡ true → coalesce_step m a ≡ (joined, a)
  unfolding coalesce_step
  coalesce_step-join p =
      let far = Holds-extent m (a + header_size + b.size) e (c ∷ cs) h.1 in
      rw (h.0, h.1.0, p)
        (ap
          (λ n. (
            write m a (header n false (link cs (a + header_size + b.size + header_size + c.size))),
            a,
          ))
          (omega arith))

  Holds-joined : Holds joined a e (block (b.size + (c.size + header_size)) false ∷ cs)
  Holds-joined =
      let far = Holds-extent m (a + header_size + b.size) e (c ∷ cs) h.1 in
      let here : a + header_size + b.size + header_size + c.size
          ≡ a + header_size + (b.size + (c.size + header_size)) =
        omega arith in
      (
        write_self m a _ ∙ ap (header (b.size + (c.size + header_size)) false) (ap (link cs) here),
        rw (← here) (
            Holds-frame m joined (a + header_size + b.size + header_size + c.size) e cs h.1.1
              (λ x p q. write-ne m a _ x (omega arith))),
      )

  coalesce_step-pass :
      (not b.used && not c.used) ≡ false → coalesce_step m a ≡ (m, a + header_size + b.size)
  unfolding coalesce_step
  coalesce_step-pass p = rw (h.0, h.1.0, p)

  -- The loop goes on while there is a block after `a`.
  coalesce_loop-suc :
      (k : ℕ)
      → coalesce_loop (suc k) m a ≡ coalesce_loop k (coalesce_step m a).0 (coalesce_step m a).1
  unfolding coalesce_loop
  coalesce_loop-suc k =
      let here : a ≢ null = omega arith in
      let next : a + header_size + b.size ≢ null = omega arith in
      rw (==_of_ne here, h.0, ==_of_ne next)

  join_round :
      (k : ℕ)
      → (not b.used && not c.used) ≡ true
      → Coalesced k joined a (block (b.size + (c.size + header_size)) false) cs e
      → Coalesced (suc k) m a b (c ∷ cs) e
  unfolding coalesce
  join_round k p (m', run, holds, same) = (
    m',
    coalesce_loop-suc k ∙ rw (coalesce_step-join p) run,
    rw p holds,
    λ x q. same x q ∙ write-ne m a _ x (omega arith),
  )

  pass_round :
      (k : ℕ)
      → (not b.used && not c.used) ≡ false
      → Coalesced k m (a + header_size + b.size) c cs e
      → Coalesced (suc k) m a b (c ∷ cs) e
  unfolding coalesce
  pass_round k p (m', run, holds, same) = (
    m',
    coalesce_loop-suc k ∙ rw (coalesce_step-pass p) run,
    rw (p, link-coalesce) (same a (omega arith) ∙ h.0, holds),
    λ x q. same x (omega arith),
  )

-- The loop ends within a round for each block, joins free neighbours from the left, and
-- writes at no address below the first block's.
coalesce_loop_lem :
    (k : ℕ) (m : Cells) (a : Addr) (b : Block) (bs : List Block) (e : Addr)
    → 0 < a
    → e < 2 ^ 32
    → Holds m a e (b ∷ bs)
    → length bs < k
    → Coalesced k m a b bs e
unfolding coalesce_loop coalesce
coalesce_loop_lem zero m a b bs e low bound h fuel = absurd (omega arith)
coalesce_loop_lem (suc k) m a b [] e low bound h fuel = (m, rw h.0 (ground arith), h, λ x p. refl)
coalesce_loop_lem (suc k) m a b (c ∷ cs) e low bound h fuel =
    let far = Holds-extent m (a + header_size + b.size) e (c ∷ cs) h.1 in
    elim (Bool-cases (not b.used && not c.used)) [
      | inl free ↦ join_round m a b c cs e bound low h k free (
          coalesce_loop_lem k (joined m a b c cs e bound low h) a
            (block (b.size + (c.size + header_size)) false) cs e low bound
            (Holds-joined m a b c cs e bound low h) (omega arith))
      | inr kept ↦ pass_round m a b c cs e bound low h k kept (
          coalesce_loop_lem k m (a + header_size + b.size) c cs e (omega arith) bound h.1
            (omega arith))
    ]

-- The same from the first block of a list that is not empty.
pub coalesce_loop_all :
    (k : ℕ) (m : Cells) (a e : Addr) (bs : List Block)
    → 0 < a
    → a < e
    → e < 2 ^ 32
    → Holds m a e bs
    → length bs < k
    → (m' : Cells) × (coalesce_loop k m a ≡ some m') × Holds m' a e (coalesce_all bs)
coalesce_loop_all k m a e [] low order bound h fuel = absurd (omega arith)
coalesce_loop_all k m a e (b ∷ bs) low order bound h fuel =
    let (m', run, holds, same) = coalesce_loop_lem k m a b bs e low bound h (omega arith) in
    (m', run, holds)

pub Positive-coalesce : (b : Block) (bs : List Block) → Positive (b ∷ bs) → Positive (coalesce b bs)
unfolding coalesce
Positive-coalesce b [] h = h
Positive-coalesce b (c ∷ cs) h = elim (Bool-cases (not b.used && not c.used)) [
  | inl free ↦
      rw free
        (Positive-coalesce (block (b.size + (c.size + header_size)) false) cs (omega arith, h.1.1))
  | inr kept ↦ rw kept (h.0, Positive-coalesce c cs h.1)
]
