-- ===== src/Memory/Blocks.antt =====
-- The heap of kernel/memory/memory.c as a list of blocks in address order: what its operations
-- mean. The address of a block is that of the first one and the sizes before it.
use cocos_os.Base.{
  ℕ, ◌+◌, ◌-◌, ◌<◌, Bool, true, false, not, ◌&&◌, Option, none, some, List, [], ◌∷◌, ltb, leb, ◌==◌,
  if◌then◌else◌,
}
use mathlib.Core.Option
use cocos_os.Memory.{Addr, header_size}

pub record Block : Type 0 where
  pub size : ℕ
  pub used : Bool

abbrev pub block : ℕ → Bool → Block
block n u = record { size = n; used = u }

-- Bytes that the blocks take, headers included.
abbrev pub extent : List Block → ℕ
extent [] = 0
extent (b ∷ bs) = header_size + b.size + extent bs

-- No block is empty.
abbrev pub Positive : List Block → Type 0
Positive [] = Unit
Positive (b ∷ bs) = (0 < b.size) × Positive bs

abbrev pub fits : ℕ → Block → Bool
fits size b = not b.used && leb size b.size

-- The block that is handed out, and what is left of it if that can hold a block.
unfoldable pub split : ℕ → Block → List Block → List Block
split size b bs =
    if ltb (size + header_size + 4) b.size
    then block size true ∷ block (b.size - size - header_size) false ∷ bs
    else block b.size true ∷ bs

-- First fit: the payload's address and the blocks afterwards.
unfoldable pub alloc : ℕ → Addr → List Block → Option (Addr × List Block)
alloc size a [] = none
alloc size a (b ∷ bs) =
    if fits size b
    then some (a + header_size, split size b bs)
    else Option.map (λ (p, cs). (p, b ∷ cs)) (alloc size (a + header_size + b.size) bs)

-- The blocks from `b` on, free neighbours joined from the left.
unfoldable pub coalesce : Block → List Block → List Block
coalesce b [] = b ∷ []
coalesce b (c ∷ cs) =
    if not b.used && not c.used
    then coalesce (block (b.size + (c.size + header_size)) false) cs
    else b ∷ coalesce c cs

abbrev pub coalesce_all : List Block → List Block
coalesce_all [] = []
coalesce_all (b ∷ bs) = coalesce b bs

-- The block whose payload stands at `p` is marked free.
unfoldable pub release : Addr → Addr → List Block → List Block
release p a [] = []
release p a (b ∷ bs) =
    if a + header_size == p
    then block b.size false ∷ bs
    else b ∷ release p (a + header_size + b.size) bs

-- Bytes of payload that are free.
unfoldable pub free_bytes : List Block → ℕ
free_bytes [] = 0
free_bytes (b ∷ bs) = (if b.used then 0 else b.size) + free_bytes bs
