-- ===== src/Memory/Safety.antt =====
-- What first fit on the blocks of the heap of kernel/memory/memory.c leaves to others.
use cocos_os.Base.{
  ℕ, ◌+◌, ◌-◌, ◌≤◌, ◌≡◌, refl, sym, ◌∙◌, ◌⊎◌, inl, inr, true, false, Option, none, some, List, [],
  ◌∷◌, arith, ltb, ◌↔◌, Bool-cases,
}
use mathlib.Core.Option
use cocos_os.Memory.{Addr, header_size}
use cocos_os.Memory.Blocks.{Block, fits, split, alloc}
use cocos_os.Memory.Alloc.{fits_le}
use cocos_os.Memory.Free.{IsPayload}

-- A block in use has the `n` bytes of payload from `p` on.
abbrev pub InUse : Addr → ℕ → Addr → List Block → Type 0
InUse p n a [] = ⊥
InUse p n a (b ∷ bs) =
    ((b.used ≡ true) × (p ≡ a + header_size) × (n ≡ b.size))
    ⊎ InUse p n (a + header_size + b.size) bs

pub InUse-IsPayload : (p n a : ℕ) (bs : List Block) → InUse p n a bs → IsPayload p a bs
InUse-IsPayload p n a [] h = absurd h
InUse-IsPayload p n a (b ∷ bs) (inl h) = inl (sym h.1)
InUse-IsPayload p n a (b ∷ bs) (inr h) = inr (InUse-IsPayload p n (a + header_size + b.size) bs h)

pub InUse-le : (p n a : ℕ) (bs : List Block) → InUse p n a bs → a + header_size ≤ p
InUse-le p n a [] h = absurd h
InUse-le p n a (b ∷ bs) (inl h) = omega arith
InUse-le p n a (b ∷ bs) (inr h) = omega (arith, InUse-le p n (a + header_size + b.size) bs h)

-- The payload at `p` holds `size` bytes, all other payloads in use stay, and none overlaps it.
abbrev pub Safe : ℕ → Addr → List Block → Option (Addr × List Block) → Type 0
Safe size a bs none = Unit
Safe size a bs (some (p, cs)) =
    ((n : ℕ) × (size ≤ n) × InUse p n a cs)
    × ((q k : ℕ) → InUse q k a bs → InUse q k a cs × ((q + k ≤ p) ⊎ (p + size ≤ q)))

-- A free block is passed over.
InUse-tail :
    (q k a : ℕ) (b : Block) (bs : List Block)
    → b.used ≡ false
    → InUse q k a (b ∷ bs)
    → InUse q k (a + header_size + b.size) bs
InUse-tail q k a b bs free (inl h) = cc (sym free ∙ h.0)
InUse-tail q k a b bs free (inr h) = h

Safe-split :
    (size : ℕ) (a : Addr) (b : Block) (bs : List Block)
    → fits size b ≡ true
    → Safe size a (b ∷ bs) (some (a + header_size, split size b bs))
unfolding split
Safe-split size a b bs p =
    let free = (fits_le size b p).0 in
    let room = (fits_le size b p).1 in
    let last : ltb (size + header_size + 4) b.size ≡ true
        → a + header_size + size + header_size + (b.size - size - header_size)
          ≡ a + header_size + b.size =
      ground arith in
    elim (Bool-cases (ltb (size + header_size + 4) b.size)) [
      | inl wide ↦ rw wide (
        (size, omega arith, inl (refl, refl, refl)),
        λ q k u.
            let r = InUse-tail q k a b bs free u in
            (
              inr (inr (rw (last wide) r)),
              inr (omega (arith, InUse-le q k (a + header_size + b.size) bs r)),
            ),
      )
      | inr narrow ↦ rw narrow (
        (b.size, room, inl (refl, refl, refl)),
        λ q k u.
            let r = InUse-tail q k a b bs free u in
            (inr r, inr (omega (arith, InUse-le q k (a + header_size + b.size) bs r))),
      )
    ]

Safe-map :
    (size a : ℕ) (b : Block) (bs : List Block) (o : Option (Addr × List Block))
    → Safe size (a + header_size + b.size) bs o
    → Safe size a (b ∷ bs) (Option.map (λ (p, cs). (p, b ∷ cs)) o)
Safe-map size a b bs none h = tt
Safe-map size a b bs (some (p, cs)) ((n, room, here), others) =
    let low = InUse-le p n (a + header_size + b.size) cs here in
    (
      (n, room, inr here),
      λ q k u. elim u [
        | inl h ↦ (inl h, inl (omega arith))
        | inr h ↦ (inr (others q k h).0, (others q k h).1)
      ],
    )

pub alloc-Safe : (size a : ℕ) (bs : List Block) → Safe size a bs (alloc size a bs)
unfolding alloc
alloc-Safe size a [] = tt
alloc-Safe size a (b ∷ bs) = elim (Bool-cases (fits size b)) [
  | inl p ↦ rw (p, Safe) (Safe-split size a b bs p)
  | inr p ↦
      rw (p, Safe)
        (Safe-map size a b bs (alloc size (a + header_size + b.size) bs)
          (alloc-Safe size (a + header_size + b.size) bs))
]

-- No free block has room for `size` bytes.
abbrev pub NoRoom : ℕ → List Block → Type 0
NoRoom size [] = Unit
NoRoom size (b ∷ bs) = (fits size b ≡ false) × NoRoom size bs

abbrev Refused : ℕ → List Block → Option (Addr × List Block) → Type 0
Refused size bs none = NoRoom size bs
Refused size bs (some r) = ¬ NoRoom size bs

Refused-map :
    (size : ℕ) (b : Block) (bs : List Block) (o : Option (Addr × List Block))
    → fits size b ≡ false
    → Refused size bs o
    → Refused size (b ∷ bs) (Option.map (λ (p, cs). (p, b ∷ cs)) o)
Refused-map size b bs none p h = (p, h)
Refused-map size b bs (some r) p h = λ n. h n.1

alloc-Refused : (size a : ℕ) (bs : List Block) → Refused size bs (alloc size a bs)
unfolding alloc
alloc-Refused size a [] = tt
alloc-Refused size a (b ∷ bs) = elim (Bool-cases (fits size b)) [
  | inl p ↦ rw (p, Refused) (λ n. cc (sym p ∙ n.0))
  | inr p ↦
      rw (p, Refused)
        (Refused-map size b bs (alloc size (a + header_size + b.size) bs) p
          (alloc-Refused size (a + header_size + b.size) bs))
]

-- First fit fails exactly where no free block has room.
pub alloc-none_iff : (size a : ℕ) (bs : List Block) → (alloc size a bs ≡ none) ↔ NoRoom size bs
alloc-none_iff size a bs = go (alloc size a bs) refl (alloc-Refused size a bs)
  where
    go :
        (o : Option (Addr × List Block))
        → alloc size a bs ≡ o
        → Refused size bs o
        → (o ≡ none) ↔ NoRoom size bs
    go none e h = (λ q. h, λ q. refl)
    go (some r) e h = (λ q. cc q, λ q. absurd (h q))
