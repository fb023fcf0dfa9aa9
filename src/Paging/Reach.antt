-- ===== src/Paging/Reach.antt =====
-- The states that calls of kernel/memory/paging.c lead to, from a start with no directory.
use cocos_os.Base.{In, ℕ, ◌+◌, ◌/◌, ◌^◌, ◌<◌, ◌≤◌, ◌≡◌, true, List, [], ◌∷◌, ok}
use cocos_os.Memory.{Addr}
use cocos_os.Memory.Blocks.{Block}
use cocos_os.Memory.Layout.{IsHeap}
use cocos_os.Paging.{
  Paging, allocate, paging_create_directory, paging_map_page, paging_unmap_page,
  paging_is_page_present, paging_virtual_to_physical,
}
use cocos_os.Paging.Frames.{IsBitmap}
use cocos_os.Paging.Owned.{Owned}
use cocos_os.Paging.Isolation.{paging_map_page-Owned, paging_unmap_page-Owned, Owned-present}
use cocos_os.Paging.Directories.{allocate-Owned, create-Owned}

-- Calls that return; a page is mapped and unmapped in a directory that was created before, and other parts
-- of the kernel allocate memory meanwhile.
pub data Reach (s0 : Paging) : List Addr → Paging → Type 0 where
  here : Reach s0 [] s0
  create :
      {dirs : List Addr} {s : Paging} (dir : Addr) (s' : Paging)
      → Reach s0 dirs s
      → paging_create_directory s ≡ ok (dir, s')
      → Reach s0 (dir ∷ dirs) s'
  map :
      {dirs : List Addr} {s : Paging} (dir : Addr) (virt flags : ℕ) (s' : Paging)
      → Reach s0 dirs s
      → In dirs dir
      → paging_map_page s dir virt flags ≡ ok s'
      → Reach s0 dirs s'
  unmap :
      {dirs : List Addr} {s : Paging} (dir : Addr) (virt : ℕ)
      → Reach s0 dirs s
      → In dirs dir
      → Reach s0 dirs (paging_unmap_page s dir virt)
  other :
      {dirs : List Addr} {s : Paging} (size : ℕ) (p : Addr) (s' : Paging)
      → Reach s0 dirs s
      → 0 < size
      → size + 3 < 2 ^ 32
      → allocate s size ≡ ok (p, s')
      → Reach s0 dirs s'

start-Owned :
    (s : Paging) (bs : List Block)
    → IsHeap s.heap bs
    → IsBitmap s.frame_bitmap
    → s.total_frames ≤ 2 ^ 20
    → Owned (In []) s bs
start-Owned s bs heap_ok bytes few = record {
  heap_ok = heap_ok;
  few = few;
  tabled = λ d i live h. absurd live;
  apart = λ d e i k live live' a b c. absurd live;
  owners = record {
    bytes = bytes;
    taken = λ d i j f live e. absurd live;
    alone = λ d e i j k l f live live' a b. absurd live;
  };
}

-- Every state that is reached from a well-formed heap, a bitmap of bytes for at most 2 ^ 20 frames and no
-- directory has one owner for each table and frame.
Reach-Owned :
    (s0 : Paging) (bs : List Block)
    → IsHeap s0.heap bs
    → IsBitmap s0.frame_bitmap
    → s0.total_frames ≤ 2 ^ 20
    → (dirs : List Addr) (s : Paging) → Reach s0 dirs s
    → (cs : List Block) × Owned (In dirs) s cs
Reach-Owned s0 bs h bytes few _ _ here = (bs, start-Owned s0 bs h bytes few)
Reach-Owned s0 bs h bytes few _ _ (create {dirs = dirs} {s = s} dir s' r e) =
    let (cs, owned) = Reach-Owned s0 bs h bytes few dirs s r in
    create-Owned dirs s cs dir s' owned e
Reach-Owned s0 bs h bytes few _ _ (map {dirs = dirs} {s = s} dir virt flags s' r live e) =
    let (cs, owned) = Reach-Owned s0 bs h bytes few dirs s r in
    let (ds, owned', kept) = paging_map_page-Owned (In dirs) s cs dir virt flags s' owned live e in
    (ds, owned')
Reach-Owned s0 bs h bytes few _ _ (unmap {dirs = dirs} {s = s} dir virt r live) =
    let (cs, owned) = Reach-Owned s0 bs h bytes few dirs s r in
    (cs, (paging_unmap_page-Owned (In dirs) s cs dir virt owned live).0)
Reach-Owned s0 bs h bytes few _ _ (other {dirs = dirs} {s = s} size p s' r pos small e) =
    let (cs, owned) = Reach-Owned s0 bs h bytes few dirs s r in
    allocate-Owned (In dirs) s cs size p s' owned pos small e

-- From a well-formed heap, a bitmap of bytes for at most 2 ^ 20 frames and no directory, whatever calls create
-- directories, map and unmap pages in them and allocate other memory: two pages that are present and stand
-- in one physical page are one page of one directory.
pub Reach-Isolated :
    (s0 : Paging) (bs : List Block) (dirs : List Addr) (s : Paging) (d e : Addr) (virt virt' : ℕ)
    → IsHeap s0.heap bs
    → IsBitmap s0.frame_bitmap
    → s0.total_frames ≤ 2 ^ 20
    → Reach s0 dirs s
    → In dirs d
    → In dirs e
    → paging_is_page_present s d virt ≡ true
    → paging_is_page_present s e virt' ≡ true
    → paging_virtual_to_physical s d virt / 2 ^ 12 ≡ paging_virtual_to_physical s e virt' / 2 ^ 12
    → (d ≡ e) × (virt / 2 ^ 12 ≡ virt' / 2 ^ 12)
Reach-Isolated s0 bs dirs s d e virt virt' h bytes few r live live' there there' same =
    let (cs, owned) = Reach-Owned s0 bs h bytes few dirs s r in
    Owned-present (In dirs) s cs d e virt virt' owned live live' there there' same
