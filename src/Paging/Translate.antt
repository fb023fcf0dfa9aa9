-- ===== src/Paging/Translate.antt =====
-- What mapping and unmapping a page in kernel/memory/paging.c do to its translation.
use Prim.Native.Nat.{bit_or}
use cocos_os.Base.{
  ℕ, ◌+◌, ◌*◌, ◌/◌, ◌%◌, ◌^◌, ◌≡◌, refl, sym, arith, ap, ap₂, ◌∙◌, ◌⊎◌, inl, inr, Bool, true, false,
  not, ◌&&◌, some, ◌==◌, if◌then◌else◌, update, update_self, Bool-cases, Option-cases, ==_self, ok,
  ok_inj, bind_ok, or_fault, set_bit, odd-bit_or,
}
use cocos_os.Memory.{Addr, null, Heap, memory_alloc}
use mathlib.Core.Path.{subst}
use cocos_os.Paging.Frames.{IsBitmap, paging_free_frame_lem}
use cocos_os.Paging.{
  zero_entry, PageDirectory, Paging, frame_used, first_free, take_frame, paging_allocate_frame,
  allocate, pd_index, pt_index, is_present, page_present, page_table_bytes, ensure_table, table_of,
  entry_of, ensure_frame, paging_map_page, paging_unmap_page, paging_virtual_to_physical,
  paging_is_page_present,
}

-- The directory has a table for the address.
abbrev has_table : Paging → Addr → ℕ → Bool
has_table s dir virt = is_present ((s.directories dir).entries (pd_index virt))

is_page_present_of :
    (s : Paging) (dir : Addr) (virt : ℕ) (b : Bool)
    → has_table s dir virt ≡ true
    → (entry_of s dir virt).present ≡ b
    → paging_is_page_present s dir virt ≡ b
unfolding paging_is_page_present
is_page_present_of s dir virt b h e = rw h e

virtual_to_physical_of :
    (s : Paging) (dir : Addr) (virt frame : ℕ)
    → has_table s dir virt ≡ true
    → (entry_of s dir virt).present ≡ true
    → (entry_of s dir virt).frame ≡ frame
    → paging_virtual_to_physical s dir virt ≡ frame * 2 ^ 12 + virt % 2 ^ 12
unfolding paging_virtual_to_physical
virtual_to_physical_of s dir virt frame h e f = rw (h, e, f)

pub odd_entry : (a : ℕ) → is_present (bit_or a page_present) ≡ true
odd_entry a = rw (odd-bit_or a)

allocate_ok :
    (s : Paging) (size : ℕ) (p : Addr) (s' : Paging)
    → allocate s size ≡ ok (p, s')
    → (h : Heap) × (s' ≡ record s { heap = h })
unfolding allocate
allocate_ok s size p s' e =
    let ((q, h), found, rest) = bind_ok (or_fault (memory_alloc s.heap size)) _ e in
    elim (Bool-cases (q == null)) [
      | inl none_left ↦ cc (rw none_left at rest)
      | inr given ↦ (h, sym (ap (λ (r : Addr × Paging). r.1) (ok_inj (rw given at rest))))
    ]

-- Afterwards there is a table for the address, an empty one, and the frames are as before.
abbrev Tabled : Paging → Addr → ℕ → Paging → Type 0
Tabled s dir virt s' =
    (has_table s' dir virt ≡ true)
    × ((entry_of s' dir virt).present ≡ false)
    × (s'.frame_bitmap ≡ s.frame_bitmap)
    × (s'.total_frames ≡ s.total_frames)

-- The state after a new table for the address.
abbrev pub with_table : Paging → Addr → ℕ → ℕ → Addr → Paging
with_table s dir virt flags table =
    let d = s.directories dir in
    let d' : PageDirectory = record d {
      entries = update d.entries (pd_index virt) (bit_or (bit_or table flags) page_present);
      tables_virtual = update d.tables_virtual (pd_index virt) table;
    } in
    record s {
      directories = update s.directories dir d';
      tables = update s.tables table (λ _. zero_entry);
    }

with_table-Tabled :
    (s : Paging) (dir : Addr) (virt flags : ℕ) (table : Addr) (h : Heap)
    → Tabled s dir virt (with_table (record s { heap = h }) dir virt flags table)
with_table-Tabled s dir virt flags table h = (
  rw (==_self dir, ==_self (pd_index virt)) (odd_entry (bit_or table flags)),
  ap (λ a. (update s.tables table (λ _. zero_entry) a (pt_index virt)).present) at
      ∙ rw (==_self table),
  refl,
  refl,
)
  where
    at : table_of (with_table (record s { heap = h }) dir virt flags table) dir virt ≡ table
    at =
        ap (λ (d : PageDirectory). d.tables_virtual (pd_index virt))
          (update_self s.directories dir _)
        ∙ update_self (s.directories dir).tables_virtual (pd_index virt) table

ensure_table-Tabled :
    (s s' : Paging) (dir : Addr) (virt flags : ℕ)
    → has_table s dir virt ≡ false
    → ensure_table s dir virt flags ≡ ok s'
    → Tabled s dir virt s'
unfolding ensure_table
ensure_table-Tabled s s' dir virt flags h e =
    let ((table, s1), given, rest) = bind_ok (allocate s page_table_bytes) _ (rw h at e) in
    let (heap, at) = allocate_ok s page_table_bytes table s1 given in
    subst (Tabled s dir virt) (ap (λ t. with_table t dir virt flags table) (sym at) ∙ ok_inj rest)
      (with_table-Tabled s dir virt flags table heap)

ensure_table_same :
    (s s' : Paging) (dir : Addr) (virt flags : ℕ)
    → has_table s dir virt ≡ true
    → ensure_table s dir virt flags ≡ ok s'
    → s ≡ s'
unfolding ensure_table
ensure_table_same s s' dir virt flags h e = ok_inj (rw h at e)

-- The page has just got the lowest free frame of the state before.
abbrev pub Mapped : Paging → Addr → ℕ → Paging → Type 0
Mapped s dir virt s' =
    (frame : ℕ) × (first_free s.frame_bitmap s.total_frames 0 ≡ some frame)
    × (s'.frame_bitmap ≡ (take_frame s frame).frame_bitmap)
    × (paging_is_page_present s' dir virt ≡ true)
    × (paging_virtual_to_physical s' dir virt ≡ frame % 2 ^ 20 * 2 ^ 12 + virt % 2 ^ 12)

ensure_frame-Mapped :
    (s s' : Paging) (dir : Addr) (virt flags : ℕ)
    → has_table s dir virt ≡ true
    → (entry_of s dir virt).present ≡ false
    → ensure_frame s dir virt flags ≡ ok s'
    → Mapped s dir virt s'
unfolding ensure_frame paging_allocate_frame
ensure_frame-Mapped s s' dir virt flags h missing e =
    elim (Option-cases (first_free s.frame_bitmap s.total_frames 0)) [
      | inl full ↦ cc (rw (missing, full, paging_allocate_frame) at e)
      | inr (frame, found) ↦
          subst (Mapped s dir virt) (ok_inj (rw (missing, found, paging_allocate_frame) at e)) (
            frame,
            found,
            refl,
            is_page_present_of _ dir virt true h
                (rw (==_self (table_of s dir virt), ==_self (pt_index virt))),
            virtual_to_physical_of _ dir virt (frame % 2 ^ 20) h
                (rw (==_self (table_of s dir virt), ==_self (pt_index virt)))
                (rw (==_self (table_of s dir virt), ==_self (pt_index virt))),
          )
    ]

Mapped-frames :
    (s s1 s' : Paging) (dir : Addr) (virt : ℕ)
    → s1.frame_bitmap ≡ s.frame_bitmap
    → s1.total_frames ≡ s.total_frames
    → Mapped s1 dir virt s'
    → Mapped s dir virt s'
Mapped-frames s s1 s' dir virt b n (frame, found, bits, there, at) = (
  frame,
  ap₂ (λ bitmap total. first_free bitmap total 0) (sym b) (sym n) ∙ found,
  bits ∙ ap (λ bitmap. update bitmap (frame / 8) (set_bit (bitmap (frame / 8)) (frame % 8))) b,
  there,
  at,
)

-- With a table in place, the page keeps its frame or gets one.
map_with_table :
    (s s' : Paging) (dir : Addr) (virt flags : ℕ)
    → has_table s dir virt ≡ true
    → ensure_frame s dir virt flags ≡ ok s'
    → ((paging_is_page_present s dir virt ≡ true) × (s' ≡ s))
      ⊎ ((paging_is_page_present s dir virt ≡ false) × Mapped s dir virt s')
unfolding ensure_frame
map_with_table s s' dir virt flags h e = elim (Bool-cases (entry_of s dir virt).present) [
  | inl there ↦ inl (is_page_present_of s dir virt true h there, sym (ok_inj (rw there at e)))
  | inr missing ↦ inr (
    is_page_present_of s dir virt false h missing,
    ensure_frame-Mapped s s' dir virt flags h missing e,
  )
]

no_table :
    (s : Paging) (dir : Addr) (virt : ℕ)
    → has_table s dir virt ≡ false
    → paging_is_page_present s dir virt ≡ false
unfolding paging_is_page_present
no_table s dir virt h = rw h

-- When `paging_map_page` returns, either the page was present and nothing has changed, or it was not
-- and now is: it translates to the lowest free frame of before, whose number is cut to 20 bits, with
-- the offset in the page kept, and that frame is taken in the bitmap.
pub paging_map_page_lem :
    (s s' : Paging) (dir : Addr) (virt flags : ℕ)
    → paging_map_page s dir virt flags ≡ ok s'
    → ((paging_is_page_present s dir virt ≡ true) × (s' ≡ s))
      ⊎ ((paging_is_page_present s dir virt ≡ false) × Mapped s dir virt s')
unfolding paging_map_page
paging_map_page_lem s s' dir virt flags e =
    let (s1, tabled, framed) = bind_ok (ensure_table s dir virt flags) _ e in
    elim (Bool-cases (has_table s dir virt)) [
      | inl h ↦ map_with_table s s' dir virt flags h (
          ap (λ t. ensure_frame t dir virt flags) (ensure_table_same s s1 dir virt flags h tabled)
          ∙ framed)
      | inr h ↦
          (let (h1, missing, bits, total) = ensure_table-Tabled s s1 dir virt flags h tabled in
            inr (
              no_table s dir virt h,
              Mapped-frames s s1 s' dir virt bits total
                  (ensure_frame-Mapped s1 s' dir virt flags h1 missing framed),
            ))
    ]

-- The page is gone, and the frame that it stood for, if it was there, is free; the others are used as before.
abbrev pub Unmapped : Paging → Addr → ℕ → Paging → Type 0
Unmapped s dir virt s' =
    (paging_is_page_present s' dir virt ≡ false)
    × (paging_virtual_to_physical s' dir virt ≡ 0)
    × ((j : ℕ)
        → frame_used s'.frame_bitmap j ≡ (
            if paging_is_page_present s dir virt
            then not (j == paging_virtual_to_physical s dir virt / 4096)
              && frame_used s.frame_bitmap j
            else frame_used s.frame_bitmap j))
    × IsBitmap s'.frame_bitmap

absent_Unmapped :
    (s : Paging) (dir : Addr) (virt : ℕ)
    → IsBitmap s.frame_bitmap
    → paging_is_page_present s dir virt ≡ false
    → paging_virtual_to_physical s dir virt ≡ 0
    → Unmapped s dir virt s
absent_Unmapped s dir virt bytes h z = (h, z, λ j. rw h, bytes)

not_translated :
    (s : Paging) (dir : Addr) (virt : ℕ)
    → has_table s dir virt ≡ true
    → (entry_of s dir virt).present ≡ false
    → paging_virtual_to_physical s dir virt ≡ 0
unfolding paging_virtual_to_physical
not_translated s dir virt h e = rw (h, e)

frame_of_translation :
    (s : Paging) (dir : Addr) (virt : ℕ)
    → has_table s dir virt ≡ true
    → (entry_of s dir virt).present ≡ true
    → paging_virtual_to_physical s dir virt / 4096 ≡ (entry_of s dir virt).frame
unfolding paging_virtual_to_physical
frame_of_translation s dir virt h e = rw (h, e) (omega arith)

no_table_zero :
    (s : Paging) (dir : Addr) (virt : ℕ)
    → has_table s dir virt ≡ false
    → paging_virtual_to_physical s dir virt ≡ 0
unfolding paging_virtual_to_physical
no_table_zero s dir virt h = rw h

-- With a bitmap of bytes, after `paging_unmap_page` the page is not present and translates to 0; if it was present
-- the frame that it translated into is free; all other frames are used or free as before, and all of them if it was
-- not; and the bitmap is one of bytes.
pub paging_unmap_page_lem :
    (s : Paging) (dir : Addr) (virt : ℕ)
    → IsBitmap s.frame_bitmap
    → Unmapped s dir virt (paging_unmap_page s dir virt)
unfolding paging_unmap_page
paging_unmap_page_lem s dir virt bytes = elim (Bool-cases (has_table s dir virt)) [
  | inr h ↦
      rw h (absent_Unmapped s dir virt bytes (no_table s dir virt h) (no_table_zero s dir virt h))
  | inl h ↦ elim (Bool-cases (entry_of s dir virt).present) [
    | inr e ↦
        rw (h, e)
          (absent_Unmapped s dir virt bytes (is_page_present_of s dir virt false h e)
            (not_translated s dir virt h e))
    | inl e ↦
        (let (freed, still) = paging_free_frame_lem s (entry_of s dir virt).frame bytes in
          rw (h, e)
            (
              is_page_present_of _ dir virt false h
                  (rw (==_self (table_of s dir virt), ==_self (pt_index virt))),
              not_translated _ dir virt h
                  (rw (==_self (table_of s dir virt), ==_self (pt_index virt))),
              λ j.
                  rw (is_page_present_of s dir virt true h e, frame_of_translation s dir virt h e)
                    (freed j),
              still,
            ))
  ]
]
