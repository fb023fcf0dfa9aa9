-- ===== src/Tests/Pages.antt =====
-- Pages of kernel/memory/paging.c in a small machine.
use cocos_os.Base.{
  ℕ, ◌/◌, ◌^◌, ◌≡◌, refl, inl, inr, true, false, arith, List, [], ◌∷◌, has_bit, set_bit, ok,
  panicked, fault,
}
use cocos_os.Memory.{Addr, header, memory_init, memory_alloc}
use cocos_os.Memory.Blocks.{Block, block}
use cocos_os.Memory.Layout.{memory_init-IsHeap}
use cocos_os.Paging.{
  zero_entry, Paging, allocate, paging_create_directory, paging_map_page, paging_unmap_page,
  paging_virtual_to_physical, paging_is_page_present,
}
use cocos_os.Paging.Owned.{Owned}
use cocos_os.Paging.Owners.{Elsewhere}
use cocos_os.Paging.Reach.{Reach, create, map, other, Reach-Isolated}
use cocos_os.Paging.Reach.Reach.{here}
use cocos_os.Paging.Isolation.{paging_map_page-Owned, paging_unmap_page-Owned, Owned-present}

-- 32 frames, all free, a heap of 32 KiB, and one directory, with no table, at 100.
abbrev empty : Paging
empty = record {
  heap = memory_init (λ _. header 0 false 0) 4096 0x8000;
  frame_bitmap = λ i. 0;
  total_frames = 32;
  used_frames = 0;
  kernel_directory = 100;
  directories = λ _. record { entries = λ _. 0; tables_virtual = λ _. 0; physical_address = 100 };
  tables = λ _ _. zero_entry;
  loaded = 0;
  enabled = false;
}

abbrev dir : Addr
dir = 100

abbrev Live : Addr → Type 0
Live d = d ≡ 100

abbrev one_block : List Block
one_block = block 0x7FF4 false ∷ []

empty-Owned : Owned Live empty one_block
empty-Owned = record {
  heap_ok =
      memory_init-IsHeap (λ _. header 0 false 0) 4096 0x8000 (omega arith) (omega arith)
        (omega arith);
  few = omega arith;
  tabled = λ d i live there. cc there;
  apart = λ d e i k live live' there there' same. cc there;
  owners = record {
    bytes = λ i. omega arith;
    taken = λ d i j f live e. cc e;
    alone = λ d e i j k l f live live' p q. cc p;
  };
}

abbrev mapped : Paging
mapped = elim (paging_map_page empty 100 0x400123 3) [ ok s ↦ s | panicked ↦ empty | fault ↦ empty ]

map-empty : paging_map_page empty 100 0x400123 3 ≡ ok mapped
unfolding paging_map_page memory_init memory_alloc has_bit
map-empty = refl

paging_map_page-Owned_example :
    (cs : List Block) × Owned Live mapped cs
    × ((d : Addr) (virt' : ℕ)
        → Live d
        → Elsewhere 100 0x400123 d virt'
        → paging_virtual_to_physical mapped d virt' ≡ paging_virtual_to_physical empty d virt')
paging_map_page-Owned_example =
    paging_map_page-Owned Live empty one_block 100 0x400123 3 mapped empty-Owned refl map-empty

-- The blocks after the first page.
abbrev blocks : List Block
blocks =
    (paging_map_page-Owned Live empty one_block 100 0x400123 3 mapped empty-Owned refl map-empty).0

mapped-Owned : Owned Live mapped blocks
mapped-Owned =
    (paging_map_page-Owned Live empty one_block 100 0x400123 3 mapped empty-Owned refl map-empty).1

paging_unmap_page-Owned_example :
    Owned Live (paging_unmap_page mapped 100 0x400123) blocks
    × ((d : Addr) (virt' : ℕ)
        → Live d
        → Elsewhere 100 0x400123 d virt'
        → paging_virtual_to_physical (paging_unmap_page mapped 100 0x400123) d virt'
          ≡ paging_virtual_to_physical mapped d virt')
paging_unmap_page-Owned_example =
    paging_unmap_page-Owned Live mapped blocks 100 0x400123 mapped-Owned refl

there : paging_is_page_present mapped 100 0x400123 ≡ true
unfolding paging_map_page memory_init memory_alloc has_bit paging_is_page_present
there = refl

near : paging_is_page_present mapped 100 0x400FFF ≡ true
unfolding paging_map_page memory_init memory_alloc has_bit paging_is_page_present
near = refl

one_page :
    paging_virtual_to_physical mapped 100 0x400123 / 2 ^ 12
    ≡ paging_virtual_to_physical mapped 100 0x400FFF / 2 ^ 12
unfolding paging_map_page memory_init memory_alloc has_bit paging_virtual_to_physical
one_page = refl

Owned-present_run : (dir ≡ dir) × (0x400123 / 2 ^ 12 ≡ 0x400FFF / 2 ^ 12)
Owned-present_run =
    Owned-present Live mapped blocks dir dir 0x400123 0x400FFF mapped-Owned refl refl there near
      one_page

-- Two directories, and a page in each, with other memory taken in between.
abbrev second : Addr
second = 12316

abbrev one_dir : Paging
one_dir = elim (paging_create_directory empty) [ ok (d, s) ↦ s | panicked ↦ empty | fault ↦ empty ]

abbrev two_dirs : Paging
two_dirs = elim (paging_create_directory one_dir) [
  | ok (d, s) ↦ s
  | panicked ↦ empty
  | fault ↦ empty
]

abbrev first_page : Paging
first_page = elim (paging_map_page two_dirs 4108 0x400123 3) [
  | ok s ↦ s
  | panicked ↦ empty
  | fault ↦ empty
]

abbrev more_used : Paging
more_used = elim (allocate first_page 50) [ ok (p, s) ↦ s | panicked ↦ empty | fault ↦ empty ]

abbrev both_pages : Paging
both_pages = elim (paging_map_page more_used 12316 0x400123 3) [
  | ok s ↦ s
  | panicked ↦ empty
  | fault ↦ empty
]

both_pages-Reach : Reach empty (12316 ∷ 4108 ∷ []) both_pages
unfolding paging_create_directory allocate paging_map_page memory_init memory_alloc has_bit set_bit
both_pages-Reach =
    map 12316 0x400123 3 both_pages
      (other 50 24632 more_used
        (map 4108 0x400123 3 first_page (create 12316 two_dirs (create 4108 one_dir here refl) refl)
          (inr (inl refl)) refl)
        (omega arith) (omega arith) refl)
      (inl refl) refl

page_there : paging_is_page_present both_pages 12316 0x400123 ≡ true
unfolding paging_create_directory allocate paging_map_page memory_init memory_alloc has_bit set_bit
    paging_is_page_present
page_there = refl

Reach-Isolated_example : (second ≡ second) × (0x400123 / 2 ^ 12 ≡ 0x400123 / 2 ^ 12)
Reach-Isolated_example =
    Reach-Isolated empty one_block (12316 ∷ 4108 ∷ []) both_pages second second 0x400123 0x400123
      empty-Owned.heap_ok empty-Owned.owners.bytes empty-Owned.few both_pages-Reach (inl refl)
      (inl refl) page_there page_there refl
