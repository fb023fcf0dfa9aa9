-- ===== src/Paging/Owned.antt =====
-- Which page of which directory holds which frame, for kernel/memory/paging.c: the state in which every
-- table and every frame has one owner.
use cocos_os.Base.{
  ℕ, ◌+◌, ◌*◌, ◌%◌, ◌^◌, ◌≤◌, ◌≡◌, inl, inr, Bool, true, false, Option, none, some, if◌then◌else◌,
  List, Bool-cases,
}
use cocos_os.Memory.{Addr}
use cocos_os.Memory.Blocks.{Block}
use cocos_os.Memory.Layout.{IsHeap}
use cocos_os.Memory.Safety.{InUse}
use cocos_os.Paging.{
  PageTableEntry, Paging, pd_index, pt_index, is_present, paging_virtual_to_physical,
}
use cocos_os.Paging.Owners.{is_page, Owners}

-- The directory has a table at that index,
abbrev pub has_table : Paging → Addr → ℕ → Bool
has_table s d i = is_present ((s.directories d).entries i)

-- which stands there,
abbrev pub table_at : Paging → Addr → ℕ → Addr
table_at s d i = (s.directories d).tables_virtual i

-- and the frame of the page at two indices, if it is present.
abbrev pub frame_in : Bool → PageTableEntry → Option ℕ
frame_in there e = if there then (if e.present then some e.frame else none) else none

abbrev pub frame_at : Paging → Addr → ℕ → ℕ → Option ℕ
frame_at s d i j = frame_in (has_table s d i) (s.tables (table_at s d i) j)

-- The heap is well formed and holds every table that a directory in use has, each at one place only.
pub record Owned (Live : Addr → Type 0) (s : Paging) (bs : List Block) : Type 0 where
  pub heap_ok : IsHeap s.heap bs
  pub few : s.total_frames ≤ 2 ^ 20
  pub tabled :
      (d : Addr) (i : ℕ)
      → Live d
      → has_table s d i ≡ true
      → (n : ℕ) × (4096 ≤ n) × InUse (table_at s d i) n s.heap.heap_start bs
  pub apart :
      (d e : Addr) (i k : ℕ)
      → Live d
      → Live e
      → has_table s d i ≡ true
      → has_table s e k ≡ true
      → table_at s d i ≡ table_at s e k
      → (d ≡ e) × (i ≡ k)
  pub owners : Owners Live s.total_frames s.frame_bitmap (frame_at s)

-- Every other page of a directory in use has the frame it had.
abbrev pub OthersKept : (Addr → Type 0) → Paging → Addr → ℕ → Paging → Type 0
OthersKept Live s dir virt s' =
    (d : Addr) (i j : ℕ)
    → Live d
    → is_page dir virt d i j ≡ false
    → frame_at s' d i j ≡ frame_at s d i j

-- A page's translation is its frame's.
abbrev pub translation : Option ℕ → ℕ → ℕ
translation none virt = 0
translation (some f) virt = f * 2 ^ 12 + virt % 2 ^ 12

pub virtual_to_physical-translation :
    (s : Paging) (d : Addr) (virt : ℕ)
    → paging_virtual_to_physical s d virt
      ≡ translation (frame_at s d (pd_index virt) (pt_index virt)) virt
unfolding paging_virtual_to_physical
virtual_to_physical-translation s d virt = elim (Bool-cases (has_table s d (pd_index virt))) [
  | inr h ↦ rw h
  | inl h ↦ elim (Bool-cases (s.tables (table_at s d (pd_index virt)) (pt_index virt)).present) [
    | inl e ↦ rw (h, e)
    | inr e ↦ rw (h, e)
  ]
]
