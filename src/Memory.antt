-- ===== src/Memory.antt =====
-- kernel/memory/memory.c: the first-fit heap. A header is a cell of a store indexed by addresses,
-- and the blocks are linked by the addresses of their headers. A loop over the blocks runs on
-- fuel, and `none` says that the fuel ran out.
pub mod Blocks
pub mod Layout
pub mod Coalesce
pub mod Free
pub mod Alloc
pub mod Join
pub mod Safety
pub mod Payloads
pub mod Contract
pub mod HandedOut
pub mod Lifecycle
pub mod Counts
pub mod Ledger
use cocos_os.Base.{
  ℕ, zero, suc, ◌+◌, ◌-◌, ◌*◌, ◌/◌, Bool, true, false, not, ◌&&◌, ◌||◌, Option, none, some, ltb,
  leb, ◌==◌, if◌then◌else◌, add32, sub32,
}
use mathlib.Core.Option

abbrev pub Addr : Type 0
Addr = ℕ

-- `NULL`
abbrev pub null : Addr
null = 0

-- `block_header_t`; `used` holds only 0 and 1
pub record Header : Type 0 where
  pub size : ℕ
  pub used : Bool
  pub next : Addr

abbrev pub header : ℕ → Bool → Addr → Header
header n u p = record { size = n; used = u; next = p }

-- `sizeof(block_header_t)` on i386: 4 + 1 + 3 of padding + 4
abbrev pub header_size : ℕ
header_size = 12

abbrev pub Cells : Type 0
Cells = Addr → Header

abbrev pub write : Cells → Addr → Header → Cells
write m a h b = if b == a then h else m b

-- The store and the two static pointers.
pub record Heap : Type 0 where
  pub cell : Cells
  pub heap_start : Addr
  pub heap_end : Addr

unfoldable pub memory_init : Cells → Addr → ℕ → Heap
memory_init m start size = record {
  cell = write m start (header (sub32 size header_size) false null);
  heap_start = start;
  heap_end = add32 start size;
}

-- One round of the loop of `coalesce`: the store and `current` after it.
coalesce_step : Cells → Addr → Cells × Addr
coalesce_step m current =
    if not (m current).used && not (m (m current).next).used
    then (
      write m current (
          header (add32 (m current).size (add32 (m (m current).next).size header_size)) false
            (m (m current).next).next),
      current,
    )
    else (m, (m current).next)

pub coalesce_loop : ℕ → Cells → Addr → Option Cells
coalesce_loop zero m current = none
coalesce_loop (suc k) m current =
    let rest = let (m', current') = coalesce_step m current in coalesce_loop k m' current' in
    if current == null || (m current).next == null then some m else rest

-- Each round of a loop drops a block or passes one, and a block takes more than a byte.
abbrev pub rounds : Heap → ℕ
rounds s = s.heap_end - s.heap_start + 1

-- `(size + 3) & ~3`
abbrev pub align4 : ℕ → ℕ
align4 size = add32 size 3 / 4 * 4

-- What `Memory_alloc` does to the block it has found.
take_block : Cells → Addr → ℕ → Cells
take_block m current size =
    if ltb (add32 (add32 size header_size) 4) (m current).size
    then (let new_block = add32 (add32 current header_size) size in
        write
          (write m new_block
            (header (sub32 (sub32 (m current).size size) header_size) false (m current).next))
          current (header size true new_block))
    else write m current (header (m current).size true (m current).next)

alloc_loop : ℕ → ℕ → Cells → Addr → Option (Addr × Cells)
alloc_loop zero size m current = none
alloc_loop (suc k) size m current =
    let rest = alloc_loop k size m (m current).next in
    if current == null
    then some (null, m)
    else if not (m current).used && leb size (m current).size
    then some (add32 current header_size, take_block m current size)
    else rest

unfoldable pub memory_alloc : Heap → ℕ → Option (Addr × Heap)
unfolding alloc_loop take_block
memory_alloc s size =
    if size == 0
    then some (null, s)
    else Option.map (λ (p, m). (p, record s { cell = m }))
        (alloc_loop (rounds s) (align4 size) s.cell s.heap_start)

unfoldable pub memory_free : Heap → Addr → Option Heap
unfolding coalesce_loop coalesce_step
memory_free s ptr =
    if ptr == null
    then some s
    else if ltb ptr s.heap_start || leb s.heap_end ptr
    then some s
    else (let block = sub32 ptr header_size in
        let m = write s.cell block (header (s.cell block).size false (s.cell block).next) in
        Option.map (λ m'. record s { cell = m' }) (coalesce_loop (rounds s) m s.heap_start))

get_free_loop : ℕ → Cells → Addr → ℕ → Option ℕ
get_free_loop zero m current total = none
get_free_loop (suc k) m current total =
    let total' = if not (m current).used then add32 total (m current).size else total in
    let rest = get_free_loop k m (m current).next total' in
    if current == null then some total else rest

unfoldable pub memory_get_free : Heap → Option ℕ
unfolding get_free_loop
memory_get_free s = get_free_loop (rounds s) s.cell s.heap_start 0
