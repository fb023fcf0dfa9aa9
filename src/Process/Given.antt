-- ===== src/Process/Given.antt =====
-- What `process_create` of process_manager/process.c takes from the heap.
use cocos_os.Base.{ℕ, ◌+◌, ◌^◌, ◌<◌, ◌≤◌, ◌≡◌, sym, ◌⊎◌, inl, inr, List, arith, ok, ok_inj, bind_ok}
use mathlib.Core.Path.{subst}
use cocos_os.Memory.{Addr, Heap}
use cocos_os.Memory.Blocks.{Block}
use cocos_os.Memory.Layout.{IsHeap}
use cocos_os.Memory.Safety.{InUse}
use cocos_os.Paging.{Paging, page_directory_bytes, allocate, paging_create_directory}
use cocos_os.Paging.Fresh.{Fresh, allocate-Fresh}

abbrev pub Apart : (p : Addr) (n : ℕ) (q : Addr) (k : ℕ) → Type 0
Apart p n q k = (p + n ≤ q) ⊎ (q + k ≤ p)

-- A payload in use with room for `size` bytes, which overlap nothing that was in use before.
abbrev pub Own : Heap → List Block → Heap → List Block → Addr → ℕ → Type 0
Own t bs h cs p size =
    ((n : ℕ) × (size ≤ n) × InUse p n h.heap_start cs)
    × ((q k : ℕ) → InUse q k t.heap_start bs → Apart q k p size)

Apart-le : (p n m q k : ℕ) → m ≤ n → Apart p n q k → Apart p m q k
Apart-le p n m q k le (inl h) = inl (omega arith)
Apart-le p n m q k le (inr h) = inr h

-- A later payload leaves an earlier one as it was, and is apart from it.
pub Own-later :
    (t : Heap) (bs : List Block) (h : Heap) (cs : List Block) (p size : ℕ) (q size' : ℕ) (h' : Heap)
    (ds : List Block)
    → Own t bs h cs p size
    → Fresh h cs q size' h' ds
    → Own t bs h' ds p size × Apart p size q size'
Own-later t bs h cs p size q size' h' ds ((n, room, used), apart) (_, _, keeps) =
    let (still, away) = keeps p n used in
    (((n, room, still), apart), Apart-le p n size q size' room away)

-- What is in use stays in use, so a payload that is fresh later is fresh for it.
abbrev pub Stays : Heap → List Block → Heap → List Block → Type 0
Stays t bs h cs = (q k : ℕ) → InUse q k t.heap_start bs → InUse q k h.heap_start cs

pub Fresh-Own :
    (t : Heap) (bs : List Block) (h : Heap) (cs : List Block) (p size : ℕ) (h' : Heap)
    (ds : List Block)
    → Stays t bs h cs
    → Fresh h cs p size h' ds
    → Own t bs h' ds p size × Stays t bs h' ds
Fresh-Own t bs h cs p size h' ds stays (_, here, keeps) =
    ((here, λ q k used. (keeps q k (stays q k used)).1), λ q k used. (keeps q k (stays q k used)).0)

pub allocated :
    (s s' : Paging) (bs : List Block) (size : ℕ) (p : Addr)
    → IsHeap s.heap bs
    → 0 < size
    → size + 3 < 2 ^ 32
    → allocate s size ≡ ok (p, s')
    → (cs : List Block) × Fresh s.heap bs p size s'.heap cs
allocated s s' bs size p heap_ok pos small e =
    let (h, cs, same, fresh) = allocate-Fresh s bs size p s' heap_ok pos small e in
    (cs, subst (λ (m : Paging). Fresh s.heap bs p size m.heap cs) (sym same) fresh)

pub directory_allocated :
    (s s' : Paging) (bs : List Block) (dir : Addr)
    → IsHeap s.heap bs
    → paging_create_directory s ≡ ok (dir, s')
    → (cs : List Block) × Fresh s.heap bs dir page_directory_bytes s'.heap cs
unfolding paging_create_directory
directory_allocated s s' bs dir heap_ok e =
    let ((p, m), given, rest) = bind_ok (allocate s page_directory_bytes) _ e in
    let (cs, fresh) =
      allocated s m bs page_directory_bytes p heap_ok (omega arith) (omega arith) given in
    (
      cs,
      subst (λ (r : Addr × Paging). Fresh s.heap bs r.0 page_directory_bytes r.1.heap cs)
          (ok_inj rest) fresh,
    )
