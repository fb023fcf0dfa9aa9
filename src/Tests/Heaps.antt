-- ===== src/Tests/Heaps.antt =====
-- kernel/memory/memory.c and kernel/memory/paging.c at a heap of 256 bytes.
use cocos_os.Base.{
  In, ◌-◌, ℕ, ◌+◌, ◌≤◌, ◌≡◌, ◌↔◌, ◌⊎◌, refl, inl, inr, true, false, none, some, List, [], ◌∷◌,
  arith, ◌==◌, ◌&&◌, not, if◌then◌else◌, ok, panicked, fault, has_bit,
}
use cocos_os.Memory.Lifecycle.{Calls, none_yet, obtain, free, Calls-memory_free}
use cocos_os.Memory.{
  Addr, null, header, Cells, Heap, memory_init, memory_alloc, memory_free, memory_get_free,
}
use cocos_os.Memory.Blocks.{Block, block, alloc, split, release, coalesce, free_bytes}
use cocos_os.Memory.Layout.{IsHeap, memory_init-IsHeap}
use cocos_os.Memory.Alloc.{Served, memory_alloc_lem}
use cocos_os.Memory.Free.{memory_free_lem}
use cocos_os.Memory.Safety.{InUse, NoRoom}
use cocos_os.Memory.Contract.{
  memory_alloc_disjoint, memory_alloc-null_iff, memory_free-alloc, memory_get_free_lem,
}
use cocos_os.Paging.{
  paging_map_page, paging_unmap_page, paging_is_page_present, Paging, zero_entry, take_frame,
  frame_used, first_free, paging_free_frame, paging_allocate_frame, paging_get_free_frames,
  free_frames_from,
}
use cocos_os.Paging.Translate.{Mapped, Unmapped, paging_map_page_lem, paging_unmap_page_lem}
use cocos_os.Paging.Frames.{
  IsBitmap-set, IsBitmap, Taken, paging_allocate_frame-Taken, paging_free_frame_lem,
  paging_get_free_frames_over,
}

abbrev blank : Cells
blank _ = header 0 false 0

-- One free block of 244 bytes at 4096.
abbrev fresh : Heap
fresh = memory_init blank 4096 256

abbrev whole : List Block
whole = block 244 false ∷ []

fresh-IsHeap : IsHeap fresh whole
fresh-IsHeap = memory_init-IsHeap blank 4096 256 (omega arith) (omega arith) (omega arith)

-- The heap after an allocation of ten bytes.
abbrev after : Heap
after = elim (memory_alloc fresh 10) [ none ↦ fresh | some (p, h) ↦ h ]

alloc-fresh : memory_alloc fresh 10 ≡ some (4108, after)
unfolding memory_alloc memory_init
alloc-fresh = refl

memory_init-IsHeap_run : IsHeap (memory_init blank 4096 256) (block 244 false ∷ [])
memory_init-IsHeap_run = memory_init-IsHeap blank 4096 256 (omega arith) (omega arith) (omega arith)

memory_alloc_lem_example : Served fresh 10 (some (4108, block 12 true ∷ block 220 false ∷ []))
unfolding memory_init alloc split
memory_alloc_lem_example = memory_alloc_lem fresh whole 10 fresh-IsHeap (omega arith) (omega arith)

memory_alloc_disjoint_example :
    (cs : List Block) × IsHeap after cs
    × ((n : ℕ) × (10 ≤ n) × InUse 4108 n after.heap_start cs)
    × ((q k : ℕ)
        → InUse q k fresh.heap_start whole
        → InUse q k after.heap_start cs × ((q + k ≤ 4108) ⊎ (4108 + 10 ≤ q)))
memory_alloc_disjoint_example =
    memory_alloc_disjoint fresh whole 10 4108 after fresh-IsHeap (omega arith) (omega arith)
      alloc-fresh (omega arith)

memory_alloc-null_iff_example : (memory_alloc fresh 300 ≡ some (null, fresh)) ↔ NoRoom 300 whole
memory_alloc-null_iff_example =
    memory_alloc-null_iff fresh whole 300 fresh-IsHeap (omega arith) (omega arith)

memory_free-alloc_example :
    (t : Heap) × (memory_free after 4108 ≡ some t)
    × IsHeap t whole
    × (t.heap_start ≡ fresh.heap_start)
memory_free-alloc_example =
    memory_free-alloc fresh whole 10 4108 after fresh-IsHeap (tt, tt) (omega arith) (omega arith)
      alloc-fresh (omega arith)

memory_get_free_lem_run : memory_get_free fresh ≡ some 244
unfolding free_bytes
memory_get_free_lem_run = memory_get_free_lem fresh whole fresh-IsHeap

-- Two blocks in use before a free one, after two allocations.
abbrev two_used : List Block
two_used = block 12 true ∷ block 8 true ∷ block 200 false ∷ []

abbrev second : Heap
second = elim (memory_alloc after 8) [ none ↦ fresh | some (p, h) ↦ h ]

second-IsHeap : IsHeap second two_used
unfolding memory_init memory_alloc
second-IsHeap = record {
  positive = omega arith;
  ordered = omega arith;
  bounded = omega arith;
  holds = (refl, (refl, (refl, refl)));
  sizes = omega arith;
}

-- The second allocation after the release of the first.
abbrev one_left : Heap
one_left = elim (memory_free second 4108) [ none ↦ second | some h ↦ h ]

one_left-Calls : Calls fresh (4132 ∷ []) one_left
unfolding memory_init memory_alloc memory_free
one_left-Calls =
    free 4108 one_left
      (obtain 8 4132 second
        (obtain 10 4108 after none_yet (omega arith) (omega arith) refl (omega arith)) (omega arith)
        (omega arith) refl (omega arith))
      (inr (inl refl)) refl

abbrev none_left : Heap
none_left = elim (memory_free one_left 4132) [ none ↦ one_left | some h ↦ h ]

none_left-Calls : Calls fresh [] none_left
unfolding memory_init memory_alloc memory_free
none_left-Calls = free 4132 none_left one_left-Calls (inl refl) refl

Calls-memory_free_example :
    ((bs : List Block) × IsHeap none_left bs)
    × ((p : Addr) → In [] p → (s' : Heap) × (memory_free none_left p ≡ some s'))
    × (◌≡◌ {A = List Addr} [] [] → IsHeap none_left (block (256 - 12) false ∷ []))
Calls-memory_free_example =
    Calls-memory_free blank 4096 256 [] none_left (omega arith) (omega arith) (omega arith)
      none_left-Calls

memory_free_lem_example :
    (s' : Heap) × (memory_free second 4108 ≡ some s')
    × IsHeap s' (block 12 false ∷ block 8 true ∷ block 200 false ∷ [])
    × (s'.heap_start ≡ 4096)
    × (s'.heap_end ≡ 4352)
unfolding memory_init memory_alloc release coalesce
memory_free_lem_example = memory_free_lem second two_used 4108 second-IsHeap (inl refl)

-- 32 frames, of which the first eight are in use.
abbrev frames : Paging
frames = record {
  heap = fresh;
  frame_bitmap = λ i. if i == 0 then 0xff else 0;
  total_frames = 32;
  used_frames = 0;
  kernel_directory = 0;
  directories = λ _. record { entries = λ _. 0; tables_virtual = λ _. 0; physical_address = 0 };
  tables = λ _ _. zero_entry;
  loaded = 0;
  enabled = false;
}

frames_bytes : IsBitmap frames.frame_bitmap
frames_bytes i = ground arith

paging_allocate_frame-Taken_example : Taken frames (ok (8, take_frame frames 8))
unfolding paging_allocate_frame first_free has_bit
paging_allocate_frame-Taken_example = paging_allocate_frame-Taken frames frames_bytes

paging_free_frame_lem_run :
    ((j : ℕ)
      → frame_used (paging_free_frame frames 3).frame_bitmap j
        ≡ (not (j == 3) && frame_used frames.frame_bitmap j))
    × IsBitmap (paging_free_frame frames 3).frame_bitmap
paging_free_frame_lem_run = paging_free_frame_lem frames 3 frames_bytes

-- 32 frames, and 56 are said to be free.
paging_get_free_frames_over_run : paging_get_free_frames (free_frames_from 24 8 frames) ≡ 56
paging_get_free_frames_over_run =
    paging_get_free_frames_over 24 8 frames refl (omega arith) (omega arith)

-- The directory at 8192 has an empty table at 12288 for the lowest 4 MiB.
abbrev one_table : Paging
one_table = record frames {
  directories = λ _. record {
    entries = λ i. if i == 0 then 12291 else 0;
    tables_virtual = λ i. if i == 0 then 12288 else 0;
    physical_address = 8192;
  };
}

abbrev mapped : Paging
mapped = elim (paging_map_page one_table 8192 0x5123 3) [
  | ok s ↦ s
  | panicked ↦ frames
  | fault ↦ frames
]

map_one : paging_map_page one_table 8192 0x5123 3 ≡ ok mapped
unfolding paging_map_page has_bit
map_one = refl

paging_map_page_lem_example :
    ((paging_is_page_present one_table 8192 0x5123 ≡ true) × (mapped ≡ one_table))
    ⊎ ((paging_is_page_present one_table 8192 0x5123 ≡ false) × Mapped one_table 8192 0x5123 mapped)
paging_map_page_lem_example = paging_map_page_lem one_table mapped 8192 0x5123 3 map_one

mapped_bytes : IsBitmap mapped.frame_bitmap
unfolding paging_map_page has_bit
mapped_bytes = IsBitmap-set frames.frame_bitmap frames_bytes 8

paging_unmap_page_lem_example : Unmapped mapped 8192 0x5123 (paging_unmap_page mapped 8192 0x5123)
paging_unmap_page_lem_example = paging_unmap_page_lem mapped 8192 0x5123 mapped_bytes
