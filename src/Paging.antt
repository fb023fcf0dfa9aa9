-- ===== src/Paging.antt =====
-- kernel/memory/paging.c and paging.h: the bitmap of page frames, and the two-level page tables.
-- Directories and tables are looked up in stores by their addresses, which `Memory_alloc` gives.
pub mod Frames
pub mod Translate
pub mod Owners
pub mod Owned
pub mod Fresh
pub mod Tables
pub mod Entries
pub mod Isolation
pub mod Directories
pub mod Reach
use Prim.Native.Nat.{bit_or}
use cocos_os.Base.{
  ℕ, zero, suc, ◌+◌, ◌-◌, ◌*◌, ◌/◌, ◌%◌, ◌^◌, Bool, true, false, not, Option, none, some, ltb, ◌==◌,
  if◌then◌else◌, update, add32, sub32, has_bit, set_bit, clear_bit, Outcome, ok, panicked, fault,
  ◌>>=◌, or_fault,
}
use cocos_os.Memory.{Addr, null, Heap, memory_alloc}

abbrev pub page_size : ℕ
page_size = 4096

abbrev pub page_present : ℕ
page_present = 1

abbrev pub page_write : ℕ
page_write = 2

abbrev pub page_user : ℕ
page_user = 4

-- `page_table_entry_t`
pub record PageTableEntry : Type 0 where
  pub present : Bool
  pub writable : Bool
  pub user : Bool
  pub write_through : Bool
  pub cache_disable : Bool
  pub accessed : Bool
  pub dirty : Bool
  pub reserved : ℕ
  pub available : ℕ
  pub frame : ℕ

-- What `memset` leaves of an entry.
abbrev pub zero_entry : PageTableEntry
zero_entry = record {
  present = false;
  writable = false;
  user = false;
  write_through = false;
  cache_disable = false;
  accessed = false;
  dirty = false;
  reserved = 0;
  available = 0;
  frame = 0;
}

-- `page_table_t`
abbrev pub PageTable : Type 0
PageTable = ℕ → PageTableEntry

-- `page_directory_t`
pub record PageDirectory : Type 0 where
  pub entries : ℕ → ℕ
  pub tables_virtual : ℕ → Addr
  pub physical_address : ℕ

abbrev pub page_table_bytes : ℕ
page_table_bytes = 4096

-- `sizeof(page_directory_t)` on i386
abbrev pub page_directory_bytes : ℕ
page_directory_bytes = 8196

-- The static variables of paging.c, the heap, the directories and tables in it, and the processor's
-- page directory register and paging bit.
pub record Paging : Type 0 where
  pub heap : Heap
  pub frame_bitmap : ℕ → ℕ
  pub total_frames : ℕ
  pub used_frames : ℕ
  pub kernel_directory : Addr
  pub directories : Addr → PageDirectory
  pub tables : Addr → PageTable
  pub loaded : ℕ
  pub enabled : Bool

-- Is the bit of a frame set?
abbrev pub frame_used : (ℕ → ℕ) → ℕ → Bool
frame_used bitmap i = has_bit (bitmap (i / 8)) (i % 8)

unfoldable pub paging_free_frame : Paging → ℕ → Paging
paging_free_frame s frame = record s {
  frame_bitmap =
      update s.frame_bitmap (frame / 8) (clear_bit (s.frame_bitmap (frame / 8)) (frame % 8));
  used_frames = sub32 s.used_frames 1;
}

-- The loop of `paging_allocate_frame`, with `left` rounds to go.
unfoldable pub first_free : (ℕ → ℕ) → (left i : ℕ) → Option ℕ
first_free bitmap zero i = none
first_free bitmap (suc left) i =
    let rest = first_free bitmap left (i + 1) in if not (frame_used bitmap i) then some i else rest

abbrev pub take_frame : Paging → ℕ → Paging
take_frame s i = record s {
  frame_bitmap = update s.frame_bitmap (i / 8) (set_bit (s.frame_bitmap (i / 8)) (i % 8));
  used_frames = add32 s.used_frames 1;
}

unfoldable pub paging_allocate_frame : Paging → Outcome (ℕ × Paging)
unfolding first_free
paging_allocate_frame s = elim (first_free s.frame_bitmap s.total_frames 0) [
  | none ↦ panicked
  | some i ↦ ok (i, take_frame s i)
]

unfoldable pub paging_get_free_frames : Paging → ℕ
paging_get_free_frames s = sub32 s.total_frames s.used_frames

-- A call of `Memory_alloc` whose result is written to at once.
unfoldable pub allocate : Paging → ℕ → Outcome (Addr × Paging)
allocate s size = do
  (p, h) ← or_fault (memory_alloc s.heap size)
  if p == null then fault else ok (p, record s { heap = h })

unfoldable pub paging_create_directory : Paging → Outcome (Addr × Paging)
unfolding allocate
paging_create_directory s = do
  (dir, s') ← allocate s page_directory_bytes
  let empty : PageDirectory = record {
    entries = λ _. 0;
    tables_virtual = λ _. null;
    physical_address = dir;
  }
  ok (dir, record s' { directories = update s'.directories dir empty })

unfoldable pub paging_switch_directory : Paging → Addr → Paging
paging_switch_directory s dir = record s { loaded = (s.directories dir).physical_address }

abbrev pub pd_index : ℕ → ℕ
pd_index virt = virt / 2 ^ 22

-- `(virt >> 12) & 0x3FF`
abbrev pub pt_index : ℕ → ℕ
pt_index virt = virt / 2 ^ 12 % 1024

-- `entry & PAGE_PRESENT`
abbrev pub is_present : ℕ → Bool
is_present entry = entry % 2 == 1

-- The first half of `paging_map_page`: the directory entry gets a table if it has none.
unfoldable pub ensure_table : Paging → Addr → ℕ → ℕ → Outcome Paging
unfolding allocate
ensure_table s dir virt flags =
    if is_present ((s.directories dir).entries (pd_index virt)) then ok s else do
      (table, s') ← allocate s page_table_bytes
      let d = s'.directories dir
      let d' : PageDirectory = record d {
        entries = update d.entries (pd_index virt) (bit_or (bit_or table flags) page_present);
        tables_virtual = update d.tables_virtual (pd_index virt) table;
      }
      ok (record s' {
        directories = update s'.directories dir d';
        tables = update s'.tables table (λ _. zero_entry);
      })

abbrev pub table_of : Paging → Addr → ℕ → Addr
table_of s dir virt = (s.directories dir).tables_virtual (pd_index virt)

abbrev pub entry_of : Paging → Addr → ℕ → PageTableEntry
entry_of s dir virt = s.tables (table_of s dir virt) (pt_index virt)

abbrev pub set_entry : Paging → Addr → ℕ → PageTableEntry → Paging
set_entry s dir virt e =
    let t = table_of s dir virt in
    record s { tables = update s.tables t (update (s.tables t) (pt_index virt) e) }

-- The second half: the table entry gets a frame if it has none. A frame number is cut to the 20
-- bits of its field.
unfoldable pub ensure_frame : Paging → Addr → ℕ → ℕ → Outcome Paging
unfolding paging_allocate_frame
ensure_frame s dir virt flags = if (entry_of s dir virt).present then ok s else do
  (frame, s') ← paging_allocate_frame s
  let e = entry_of s' dir virt
  ok (
      set_entry s' dir virt (record e {
        frame = frame % 2 ^ 20;
        present = true;
        writable = flags / page_write % 2 == 1;
        user = flags / page_user % 2 == 1;
      }))

-- The address that the call returns is its argument.
unfoldable pub paging_map_page : Paging → Addr → ℕ → ℕ → Outcome Paging
unfolding ensure_table ensure_frame
paging_map_page s dir virt flags = do
  s' ← ensure_table s dir virt flags
  ensure_frame s' dir virt flags

unfoldable pub paging_unmap_page : Paging → Addr → ℕ → Paging
unfolding paging_free_frame
paging_unmap_page s dir virt =
    if not (is_present ((s.directories dir).entries (pd_index virt)))
    then s
    else if (entry_of s dir virt).present
    then (let s' = paging_free_frame s (entry_of s dir virt).frame in
        let e = entry_of s dir virt in set_entry s' dir virt (record e { present = false }))
    else s

-- `frame << 12` and `virt & 0xFFF` have no bit in common, so `|` is the sum.
unfoldable pub paging_virtual_to_physical : Paging → Addr → ℕ → ℕ
paging_virtual_to_physical s dir virt =
    if not (is_present ((s.directories dir).entries (pd_index virt)))
    then 0
    else if not (entry_of s dir virt).present
    then 0
    else (entry_of s dir virt).frame * 2 ^ 12 + virt % 2 ^ 12

unfoldable pub paging_is_page_present : Paging → Addr → ℕ → Bool
paging_is_page_present s dir virt =
    if not (is_present ((s.directories dir).entries (pd_index virt)))
    then false
    else (entry_of s dir virt).present

-- The loops of `paging_init`, with `left` rounds to go.
unfoldable pub free_frames_from : ℕ → ℕ → Paging → Paging
unfolding paging_free_frame
free_frames_from zero i s = s
free_frames_from (suc left) i s = free_frames_from left (i + 1) (paging_free_frame s i)

map_pages_from : ℕ → ℕ → Addr → Paging → Outcome Paging
unfolding paging_map_page
map_pages_from zero addr dir s = ok s
map_pages_from (suc left) addr dir s = do
  s' ← paging_map_page s dir addr 3
  map_pages_from left (addr + page_size) dir s'

-- The frames below 1 MiB stay in use; the first 4 MiB are mapped. Without a frame `Memory_alloc` gives NULL for
-- no bytes, and none is written to it.
unfoldable pub paging_init : Paging → ℕ → Outcome Paging
unfolding allocate free_frames_from paging_create_directory map_pages_from paging_switch_directory
paging_init s total_memory = do
  let total = total_memory / page_size
  let bitmap_size = (total + 7) / 8
  let counted : Paging = record s { total_frames = total }
  (bitmap, s1) ← if bitmap_size == 0 then ok (null, counted) else allocate counted bitmap_size
  let all_used : Paging = record s1 {
    frame_bitmap = λ i. if ltb i bitmap_size then 0xff else s.frame_bitmap i;
  }
  let start = 0x100000 / page_size
  let freed = free_frames_from (total - start) start all_used
  (dir, s2) ← paging_create_directory freed
  s3 ← map_pages_from (0x400000 / page_size) 0 dir (record s2 { kernel_directory = dir })
  let s4 = paging_switch_directory s3 dir
  ok (record s4 { enabled = true })
