-- ===== src/Paging/Entries.antt =====
-- One entry of a page table in kernel/memory/paging.c is written, for a page that gets a frame or gives it
-- back.
use cocos_os.Base.{
  ℕ, ◌%◌, ◌^◌, ◌≡◌, ◌≢◌, refl, sym, ap, ap₂, ◌∙◌, inl, inr, true, false, none, some, arith, ◌==◌,
  List, Bool-cases, Option-cases, ==_iff, update_self, update-ne, ok, ok_inj,
}
use mathlib.Core.Path.{subst}
use cocos_os.Memory.{Addr}
use cocos_os.Memory.Blocks.{Block}
use cocos_os.Paging.{
  PageTableEntry, Paging, pd_index, pt_index, ensure_frame, table_of, entry_of, set_entry,
  first_free, take_frame, paging_allocate_frame, paging_free_frame,
}
use cocos_os.Paging.Frames.{Taken, paging_allocate_frame-Taken, paging_free_frame_lem}
use cocos_os.Paging.Owned.{has_table, table_at, frame_at, Owned, OthersKept, frame_in}
use cocos_os.Paging.Owners.{is_page, Owners-give, Owners-take}

-- A write to one entry of a page table, in a state where each table stands at one place.
module _ (Live : Addr → Type 0) (s : Paging) (bs : List Block) (dir : Addr) (virt : ℕ)
    (owned : Owned Live s bs) (live_dir : Live dir)
    (there : has_table s dir (pd_index virt) ≡ true) where
  frame_at-set_entry :
      (e : PageTableEntry)
      → frame_at (set_entry s dir virt e) dir (pd_index virt) (pt_index virt) ≡ frame_in true e
  frame_at-set_entry e = ap₂ frame_in there (
      ap (λ (t : ℕ → PageTableEntry). t (pt_index virt))
        (update_self s.tables (table_of s dir virt) _)
      ∙ update_self (s.tables (table_of s dir virt)) (pt_index virt) e)

  -- Another entry of a directory in use is as before.
  entry_other :
      (e : PageTableEntry) (d : Addr) (i j : ℕ)
      → Live d
      → is_page dir virt d i j ≡ false
      → has_table s d i ≡ true
      → (set_entry s dir virt e).tables (table_at s d i) j ≡ s.tables (table_at s d i) j
  entry_other e d i j live off has = elim (Bool-cases (table_at s d i == table_of s dir virt)) [
    | inr other ↦
        ap (λ (t : ℕ → PageTableEntry). t j)
          (update-ne s.tables (table_of s dir virt) _ (table_at s d i) (λ p. absurd (ground arith)))
    | inl same ↦
        (let at = (==_iff (table_at s d i) (table_of s dir virt)).0 same in
          let (p, q) = owned.apart d dir i (pd_index virt) live live_dir has there at in
          let column : j ≢ pt_index virt = λ r. absurd (ground arith) in
          ap (λ t. (set_entry s dir virt e).tables t j) at
          ∙ ap (λ (t : ℕ → PageTableEntry). t j) (update_self s.tables (table_of s dir virt) _)
          ∙ update-ne (s.tables (table_of s dir virt)) (pt_index virt) e j column
          ∙ ap (λ t. s.tables t j) (sym at))
  ]

  pub OthersKept-set_entry :
      (e : PageTableEntry) → OthersKept Live s dir virt (set_entry s dir virt e)
  OthersKept-set_entry e d i j live off = elim (Bool-cases (has_table s d i)) [
    | inr h ↦
        ap (λ b. frame_in b ((set_entry s dir virt e).tables (table_at s d i) j)) h
        ∙ sym (ap (λ b. frame_in b (s.tables (table_at s d i) j)) h)
    | inl h ↦ ap (frame_in (has_table s d i)) (entry_other e d i j live off h)
  ]

  -- The page gets a frame that is free.
  Owned-give :
      (k : ℕ) (e : PageTableEntry)
      → Taken s (ok (k, take_frame s k))
      → frame_in true e ≡ some k
      → Owned Live (set_entry (take_frame s k) dir virt e) bs
  Owned-give k e (low, free, lower, used, bytes) given = record {
    heap_ok = owned.heap_ok;
    few = owned.few;
    tabled = owned.tabled;
    apart = owned.apart;
    owners =
        Owners-give Live s.total_frames s.frame_bitmap (take_frame s k).frame_bitmap (frame_at s)
          (frame_at (set_entry s dir virt e)) dir virt owned.owners bytes (OthersKept-set_entry e) k
          low free used (frame_at-set_entry e ∙ given);
  }

  -- The page gives its frame back.
  pub Owned-take :
      (f : ℕ) (e : PageTableEntry)
      → frame_at s dir (pd_index virt) (pt_index virt) ≡ some f
      → frame_in true e ≡ none
      → Owned Live (set_entry (paging_free_frame s f) dir virt e) bs
  unfolding paging_free_frame
  Owned-take f e had gone =
      let (used, bytes) = paging_free_frame_lem s f owned.owners.bytes in
      record {
        heap_ok = owned.heap_ok;
        few = owned.few;
        tabled = owned.tabled;
        apart = owned.apart;
        owners =
            Owners-take Live s.total_frames s.frame_bitmap (paging_free_frame s f).frame_bitmap
              (frame_at s) (frame_at (set_entry s dir virt e)) dir virt owned.owners bytes
              (OthersKept-set_entry e) f live_dir had used (frame_at-set_entry e ∙ gone);
      }

  -- `ensure_frame` keeps the frames owned and all other pages as they were.
  pub ensure_frame-Owned :
      (flags : ℕ) (s' : Paging)
      → ensure_frame s dir virt flags ≡ ok s'
      → Owned Live s' bs × OthersKept Live s dir virt s'
  unfolding ensure_frame
  ensure_frame-Owned flags s' e = elim (Bool-cases (entry_of s dir virt).present) [
    | inl here ↦
        (let same : s ≡ s' = ok_inj (rw here at e) in
          subst (λ u. Owned Live u bs × OthersKept Live s dir virt u) same
            (owned, λ d i j live off. refl))
    | inr missing ↦ elim (Option-cases (first_free s.frame_bitmap s.total_frames 0)) [
      | inl full ↦ cc (rw (missing, full, paging_allocate_frame) at e)
      | inr (k, found) ↦
          (let same = ok_inj (rw (missing, found, paging_allocate_frame) at e) in
            let alloc : paging_allocate_frame s ≡ ok (k, take_frame s k) =
              rw (paging_allocate_frame, found) in
            let taken : Taken s (ok (k, take_frame s k)) =
              subst (Taken s) alloc (paging_allocate_frame-Taken s owned.owners.bytes) in
            let small : k % 2 ^ 20 ≡ k = omega (arith, taken.0, owned.few) in
            subst (λ u. Owned Live u bs × OthersKept Live s dir virt u) same
              (Owned-give k _ taken (ap (λ n. some n) small), OthersKept-set_entry _))
    ]
  ]
