-- ===== src/Memory/Join.antt =====
-- Free neighbours among the blocks of the heap of kernel/memory/memory.c, and the round trip of
-- an allocation and its release.
use cocos_os.Base.{
  ℕ, ◌+◌, ◌-◌, ◌≤◌, ◌≡◌, refl, sym, ◌∙◌, inl, inr, true, false, not, ◌&&◌, Option, none, some, List,
  [], ◌∷◌, arith, ltb, ap, ==_of_ne, ==_self, ◌≢◌, Bool-cases,
}
use mathlib.Core.Option
use cocos_os.Memory.{Addr, header_size}
use cocos_os.Memory.Blocks.{Block, block, fits, split, alloc, release, coalesce, coalesce_all}
use cocos_os.Memory.Alloc.{fits_le}

-- `b` and the block after it are not both free.
abbrev pub Apart : Block → List Block → Type 0
Apart b [] = Unit
Apart b (c ∷ cs) = (not b.used && not c.used) ≡ false

-- No two neighbours are free.
abbrev pub Joined : List Block → Type 0
Joined [] = Unit
Joined (b ∷ bs) = Apart b bs × Joined bs

-- Whatever block stands before them, joining meets a block with the same use first.
Apart-coalesce : (b c : Block) (cs : List Block) → Apart b (c ∷ cs) → Apart b (coalesce c cs)
unfolding coalesce
Apart-coalesce b c [] h = h
Apart-coalesce b c (d ∷ ds) h = elim (Bool-cases (not c.used && not d.used)) [
  | inl p ↦
      rw p (Apart-coalesce b (block (c.size + (d.size + header_size)) false) ds (ground arith))
  | inr p ↦ rw p h
]

pub coalesce-Joined : (b : Block) (bs : List Block) → Joined (coalesce b bs)
unfolding coalesce
coalesce-Joined b [] = (tt, tt)
coalesce-Joined b (c ∷ cs) = elim (Bool-cases (not b.used && not c.used)) [
  | inl p ↦ rw p (coalesce-Joined (block (b.size + (c.size + header_size)) false) cs)
  | inr p ↦ rw p (Apart-coalesce b c cs p, coalesce-Joined c cs)
]

pub coalesce_all-Joined : (bs : List Block) → Joined (coalesce_all bs)
coalesce_all-Joined [] = tt
coalesce_all-Joined (b ∷ bs) = coalesce-Joined b bs

coalesce_of_Joined : (b : Block) (bs : List Block) → Joined (b ∷ bs) → coalesce b bs ≡ b ∷ bs
unfolding coalesce
coalesce_of_Joined b [] h = refl
coalesce_of_Joined b (c ∷ cs) h = rw (h.0, coalesce_of_Joined c cs h.1)

coalesce_of_Apart : (b : Block) (bs : List Block) → Apart b bs → coalesce b bs ≡ b ∷ coalesce_all bs
unfolding coalesce
coalesce_of_Apart b [] h = refl
coalesce_of_Apart b (c ∷ cs) h = rw h

-- What an allocation took is given back whole.
abbrev pub Restored : Addr → List Block → Option (Addr × List Block) → Type 0
Restored a bs none = Unit
Restored a bs (some (p, cs)) =
    (coalesce_all (release p a cs) ≡ bs)
    × ((b : Block) → Apart b bs → Apart b (release p a cs))
    × (a + header_size ≤ p)

Restored-split :
    (size : ℕ) (a : Addr) (b : Block) (bs : List Block)
    → Joined (b ∷ bs)
    → fits size b ≡ true
    → Restored a (b ∷ bs) (some (a + header_size, split size b bs))
unfolding split release coalesce
Restored-split size a b bs h p =
    let free = (fits_le size b p).0 in
    let room = (fits_le size b p).1 in
    let sums : ltb (size + header_size + 4) b.size ≡ true
        → size + (b.size - size - header_size + header_size) ≡ b.size =
      ground arith in
    let whole : (c : Block) → c ≡ block b.size false → coalesce c bs ≡ b ∷ bs = λ c e.
      ap (λ x. coalesce x bs) (e ∙ sym (ap (block b.size) free)) ∙ coalesce_of_Joined b bs h in
    elim (Bool-cases (ltb (size + header_size + 4) b.size)) [
      | inl wide ↦
          rw (wide, ==_self (a + header_size))
            (
              whole (block (size + (b.size - size - header_size + header_size)) false)
                  (ap (λ n. block n false) (sums wide)),
              λ c q. rw free at q,
              omega arith,
            )
      | inr narrow ↦
          rw (narrow, ==_self (a + header_size))
            (whole (block b.size false) refl, λ c q. rw free at q, omega arith)
    ]

Restored-map :
    (a : Addr) (b : Block) (bs : List Block) (o : Option (Addr × List Block))
    → Apart b bs
    → Restored (a + header_size + b.size) bs o
    → Restored a (b ∷ bs) (Option.map (λ (p, cs). (p, b ∷ cs)) o)
unfolding release
Restored-map a b bs none apart h = tt
Restored-map a b bs (some (p, cs)) apart (whole, same, low) =
    let other : a + header_size ≢ p = omega arith in
    rw (==_of_ne other) (
      coalesce_of_Apart b (release p (a + header_size + b.size) cs) (same b apart) ∙ rw whole,
      λ c q. q,
      omega arith,
    )

-- First fit on blocks with no free neighbours, and the release of what it handed out, give the
-- same blocks again.
pub alloc-Restored : (size a : ℕ) (bs : List Block) → Joined bs → Restored a bs (alloc size a bs)
unfolding alloc
alloc-Restored size a [] h = tt
alloc-Restored size a (b ∷ bs) h = elim (Bool-cases (fits size b)) [
  | inl p ↦ rw (p, Restored) (Restored-split size a b bs h p)
  | inr p ↦
      rw (p, Restored)
        (Restored-map a b bs (alloc size (a + header_size + b.size) bs) h.0
          (alloc-Restored size (a + header_size + b.size) bs h.1))
]
