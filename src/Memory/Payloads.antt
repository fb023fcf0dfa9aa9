-- ===== src/Memory/Payloads.antt =====
-- Which payloads of the heap of kernel/memory/memory.c are in use after an allocation and after a release.
use cocos_os.Base.{
  ℕ, ◌+◌, ◌-◌, ◌≡◌, ◌≢◌, refl, sym, ◌∙◌, ◌⊎◌, inl, inr, true, false, not, ◌&&◌, Option, none, some,
  List, [], ◌∷◌, arith, ltb, ◌==◌, Bool-cases,
}
use mathlib.Core.Option
use mathlib.Core.Path.{subst}
use cocos_os.Memory.{Addr, header_size}
use cocos_os.Memory.Blocks.{Block, block, fits, split, alloc, release, coalesce}
use cocos_os.Memory.Alloc.{fits_le}
use cocos_os.Memory.Safety.{InUse, InUse-le}
use cocos_os.Memory.Join.{Apart, Joined}

-- A free block in front, or two of them as one, changes nothing.
InUse-free :
    (q k a : ℕ) (b : Block) (bs : List Block)
    → b.used ≡ false
    → InUse q k a (b ∷ bs)
    → InUse q k (a + header_size + b.size) bs
InUse-free q k a b bs free (inl h) = cc (sym free ∙ h.0)
InUse-free q k a b bs free (inr h) = h

-- Joining keeps the payloads in use,
pub InUse-coalesce :
    (q k a : ℕ) (b : Block) (bs : List Block) → InUse q k a (b ∷ bs) → InUse q k a (coalesce b bs)
unfolding coalesce
InUse-coalesce q k a b [] h = h
InUse-coalesce q k a b (c ∷ cs) h = elim (Bool-cases (not b.used && not c.used)) [
  | inl p ↦
      (let far : a + header_size + b.size + header_size + c.size
            ≡ a + header_size + (b.size + (c.size + header_size)) =
          omega arith in
        let rest =
          InUse-free q k (a + header_size + b.size) c cs (ground arith)
            (InUse-free q k a b (c ∷ cs) (ground arith) h) in
        rw p (
          InUse-coalesce q k a (block (b.size + (c.size + header_size)) false) cs
            (inr (subst (λ n. InUse q k n cs) far rest))))
  | inr p ↦ elim h [
    | inl here ↦ rw p (inl here)
    | inr later ↦ rw p (inr (InUse-coalesce q k (a + header_size + b.size) c cs later))
  ]
]

-- and adds none.
pub coalesce-InUse :
    (q k a : ℕ) (b : Block) (bs : List Block) → InUse q k a (coalesce b bs) → InUse q k a (b ∷ bs)
unfolding coalesce
coalesce-InUse q k a b [] h = h
coalesce-InUse q k a b (c ∷ cs) h = elim (Bool-cases (not b.used && not c.used)) [
  | inl p ↦
      (let far : a + header_size + (b.size + (c.size + header_size))
            ≡ a + header_size + b.size + header_size + c.size =
          omega arith in
        let one =
          coalesce-InUse q k a (block (b.size + (c.size + header_size)) false) cs (rw p at h) in
        inr (
          inr (
            subst (λ n. InUse q k n cs) far
              (InUse-free q k a (block (b.size + (c.size + header_size)) false) cs refl one))))
  | inr p ↦ elim (rw p at h) [
    | inl here ↦ inl here
    | inr later ↦ inr (coalesce-InUse q k (a + header_size + b.size) c cs later)
  ]
]

-- A release ends the use of its payload, and no other's.
pub InUse-release :
    (p q k a : ℕ) (bs : List Block) → q ≢ p → InUse q k a bs → InUse q k a (release p a bs)
unfolding release
InUse-release p q k a [] ne h = h
InUse-release p q k a (b ∷ bs) ne h = elim (Bool-cases (a + header_size == p)) [
  | inl at ↦ elim h [ inl here ↦ absurd (ground arith) | inr later ↦ rw at (inr later) ]
  | inr off ↦ elim h [
    | inl here ↦ rw off (inl here)
    | inr later ↦ rw off (inr (InUse-release p q k (a + header_size + b.size) bs ne later))
  ]
]

pub release-InUse :
    (p q k a : ℕ) (bs : List Block) → InUse q k a (release p a bs) → (q ≢ p) × InUse q k a bs
unfolding release
release-InUse p q k a [] h = absurd h
release-InUse p q k a (b ∷ bs) h = elim (Bool-cases (a + header_size == p)) [
  | inl at ↦
      (let later = InUse-free q k a (block b.size false) bs refl (rw at at h) in
        let high = InUse-le q k (a + header_size + b.size) bs later in
        (λ e. absurd (ground arith), inr later))
  | inr off ↦ elim (rw off at h) [
    | inl here ↦ (λ e. absurd (ground arith), inl here)
    | inr later ↦
        (let (ne, was) = release-InUse p q k (a + header_size + b.size) bs later in (ne, inr was))
  ]
]

-- After an allocation the payloads in use are the old ones and the new one, and no two free blocks are
-- neighbours if none were.
abbrev pub Only : Addr → List Block → Option (Addr × List Block) → Type 0
Only a bs none = Unit
Only a bs (some (p, cs)) =
    ((q k : ℕ) → InUse q k a cs → (q ≡ p) ⊎ InUse q k a bs)
    × (Joined bs → Joined cs × ((c : Block) → Apart c bs → Apart c cs))

Apart-used : (b : Block) (bs : List Block) → b.used ≡ true → Apart b bs
Apart-used b [] h = tt
Apart-used b (c ∷ cs) h = ground arith

Apart-free : (b c : Block) (bs : List Block) → b.used ≡ false → Apart b bs → Apart c bs
Apart-free b c [] free h = tt
Apart-free b c (d ∷ ds) free h = ground arith

Only-split :
    (size : ℕ) (a : Addr) (b : Block) (bs : List Block)
    → fits size b ≡ true
    → Only a (b ∷ bs) (some (a + header_size, split size b bs))
unfolding split
Only-split size a b bs p =
    let free = (fits_le size b p).0 in
    elim (Bool-cases (ltb (size + header_size + 4) b.size)) [
      | inl wide ↦ rw wide (
        λ q k u. elim u [
          | inl h ↦ inl h.1
          | inr h ↦
              (let last : a + header_size + size + header_size + (b.size - size - header_size)
                    ≡ a + header_size + b.size =
                  ground arith in
                inr (
                  inr (
                    subst (λ n. InUse q k n bs) last
                      (InUse-free q k (a + header_size + size)
                        (block (b.size - size - header_size) false) bs refl h))))
        ],
        λ h. (
          (refl, (Apart-free b (block (b.size - size - header_size) false) bs free h.0, h.1)),
          λ c same. ground arith,
        ),
      )
      | inr narrow ↦ rw narrow (
        λ q k u. elim u [ inl h ↦ inl h.1 | inr h ↦ inr (inr h) ],
        λ h. ((Apart-used (block b.size true) bs refl, h.1), λ c same. ground arith),
      )
    ]

Only-map :
    (a : ℕ) (b : Block) (bs : List Block) (o : Option (Addr × List Block))
    → Only (a + header_size + b.size) bs o
    → Only a (b ∷ bs) (Option.map (λ (p, cs). (p, b ∷ cs)) o)
Only-map a b bs none h = tt
Only-map a b bs (some (p, cs)) (only, joined) = (
  λ q k u. elim u [
    | inl h ↦ inr (inl h)
    | inr h ↦ elim (only q k h) [ inl e ↦ inl e | inr old ↦ inr (inr old) ]
  ],
  λ h. ((((joined h.1).1 b h.0), (joined h.1).0), λ c same. same),
)

pub alloc-Only : (size a : ℕ) (bs : List Block) → Only a bs (alloc size a bs)
unfolding alloc
alloc-Only size a [] = tt
alloc-Only size a (b ∷ bs) = elim (Bool-cases (fits size b)) [
  | inl p ↦ rw (p, Only) (Only-split size a b bs p)
  | inr p ↦
      rw (p, Only)
        (Only-map a b bs (alloc size (a + header_size + b.size) bs)
          (alloc-Only size (a + header_size + b.size) bs))
]
