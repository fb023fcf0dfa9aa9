-- ===== src/Paging/Tables.antt =====
-- A new page table in kernel/memory/paging.c stands where no other stood.
use cocos_os.Base.{
  ℕ, ◌≡◌, ◌≢◌, sym, ap, ap₂, ◌∙◌, ◌⊎◌, inl, inr, true, false, ◌&&◌, arith, ◌==◌, List, Bool-cases,
  ==_iff, update_self, update-ne, ok, ok_inj, bind_ok,
}
use Prim.Native.Nat.{bit_or}
use mathlib.Core.Path.{subst}
use cocos_os.Memory.{Addr, Heap}
use cocos_os.Memory.Blocks.{Block}
use cocos_os.Memory.Safety.{InUse}
use cocos_os.Paging.{
  PageDirectory, zero_entry, PageTableEntry, Paging, pd_index, is_present, allocate, ensure_table,
  page_table_bytes,
}
use cocos_os.Paging.Translate.{odd_entry, with_table}
use cocos_os.Paging.Fresh.{Fresh, allocate-Fresh}
use cocos_os.Paging.Owned.{has_table, table_at, frame_at, Owned, frame_in}
use cocos_os.Paging.Owners.{Owners-same}

-- A new, empty table for the address.
module _ (s : Paging) (dir : Addr) (virt flags : ℕ) (table : Addr) (h : Heap) where
  abbrev tabled : Paging
  tabled = with_table (record s { heap = h }) dir virt flags table

  has_table-tabled : has_table tabled dir (pd_index virt) ≡ true
  has_table-tabled =
      ap (λ (d : PageDirectory). is_present (d.entries (pd_index virt)))
        (update_self s.directories dir _)
      ∙ ap is_present (update_self (s.directories dir).entries (pd_index virt) _)
      ∙ odd_entry (bit_or table flags)

  table_at-tabled : table_at tabled dir (pd_index virt) ≡ table
  table_at-tabled =
      ap (λ (d : PageDirectory). d.tables_virtual (pd_index virt)) (update_self s.directories dir _)
      ∙ update_self (s.directories dir).tables_virtual (pd_index virt) table

  -- Another entry is as before.
  tabled_entry :
      (i : ℕ)
      → i ≢ pd_index virt
      → (has_table tabled dir i ≡ has_table s dir i) × (table_at tabled dir i ≡ table_at s dir i)
  tabled_entry i off = (
    ap (λ (d : PageDirectory). is_present (d.entries i)) (update_self s.directories dir _)
        ∙ ap is_present (update-ne (s.directories dir).entries (pd_index virt) _ i off),
    ap (λ (d : PageDirectory). d.tables_virtual i) (update_self s.directories dir _)
        ∙ update-ne (s.directories dir).tables_virtual (pd_index virt) table i off,
  )

  tabled_other :
      (d : Addr) (i : ℕ)
      → (d == dir && i == pd_index virt) ≡ false
      → (has_table tabled d i ≡ has_table s d i) × (table_at tabled d i ≡ table_at s d i)
  tabled_other d i off = elim (Bool-cases (d == dir)) [
    | inr other ↦
        (let e : tabled.directories d ≡ s.directories d =
            update-ne s.directories dir _ d (λ p. absurd (ground arith)) in
          (
            ap (λ (t : PageDirectory). is_present (t.entries i)) e,
            ap (λ (t : PageDirectory). t.tables_virtual i) e,
          ))
    | inl same ↦
        (let there : i ≢ pd_index virt = λ e. absurd (ground arith) in
          subst
            (λ e. (has_table tabled e i ≡ has_table s e i) × (table_at tabled e i ≡ table_at s e i))
            (sym ((==_iff d dir).0 same)) (tabled_entry i there))
  ]

  -- The table of an entry is the new one, or both are as before.
  table_cases :
      (d : Addr) (i : ℕ)
      → ((d ≡ dir) × (i ≡ pd_index virt) × (table_at tabled d i ≡ table))
        ⊎ ((has_table tabled d i ≡ has_table s d i) × (table_at tabled d i ≡ table_at s d i))
  table_cases d i = elim (Bool-cases (d == dir && i == pd_index virt)) [
    | inr off ↦ inr (tabled_other d i off)
    | inl here ↦
        (let p : d ≡ dir = ground arith in
          let q : i ≡ pd_index virt = ground arith in
          inl (p, q, ap₂ (table_at tabled) p q ∙ table_at-tabled))
  ]

  module _ (Live : Addr → Type 0) (bs cs : List Block) (owned : Owned Live s bs)
      (missing : has_table s dir (pd_index virt) ≡ false)
      (fresh : Fresh s.heap bs table page_table_bytes h cs) where
    -- An old table is not the new one.
    not_new : (d : Addr) (i : ℕ) → Live d → has_table s d i ≡ true → table_at s d i ≢ table
    not_new d i live there same =
        let (n, room, here) = owned.tabled d i live there in
        let apart = (fresh.2 (table_at s d i) n here).1 in absurd (grind arith)

    new_empty : (j : ℕ) → frame_at tabled dir (pd_index virt) j ≡ frame_at s dir (pd_index virt) j
    new_empty j =
        ap₂ frame_in has_table-tabled (
          ap (λ t. tabled.tables t j) table_at-tabled
          ∙ ap (λ (t : ℕ → PageTableEntry). t j) (update_self s.tables table (λ _. zero_entry)))
        ∙ sym (ap (λ b. frame_in b (s.tables (table_at s dir (pd_index virt)) j)) missing)

    -- No page has got a frame or lost it.
    frame_at-tabled : (d : Addr) (i j : ℕ) → Live d → frame_at tabled d i j ≡ frame_at s d i j
    frame_at-tabled d i j live = elim (table_cases d i) [
      | inl (p, q, r) ↦
          ap₂ (λ e k. frame_at tabled e k j) p q
          ∙ new_empty j
          ∙ ap₂ (λ e k. frame_at s e k j) (sym p) (sym q)
      | inr (same, at) ↦ elim (Bool-cases (has_table s d i)) [
        | inr off ↦
            ap (λ b. frame_in b (tabled.tables (table_at tabled d i) j)) (same ∙ off)
            ∙ sym (ap (λ b. frame_in b (s.tables (table_at s d i) j)) off)
        | inl there ↦ ap₂ frame_in same (
            ap (λ t. tabled.tables t j) at
            ∙ ap (λ (t : ℕ → PageTableEntry). t j)
                (update-ne s.tables table _ (table_at s d i) (not_new d i live there)))
      ]
    ]

    Owned-tabled : Owned Live tabled cs
    Owned-tabled = record {
      heap_ok = fresh.0;
      few = owned.few;
      tabled = λ d i live there. elim (table_cases d i) [
        | inl (p, q, r) ↦
            (let (n, room, here) = fresh.1 in
              (n, room, subst (λ t. InUse t n h.heap_start cs) (sym r) here))
        | inr (same, at) ↦
            (let (n, room, here) = owned.tabled d i live (sym same ∙ there) in
              (
                n,
                room,
                subst (λ t. InUse t n h.heap_start cs) (sym at) (fresh.2 (table_at s d i) n here).0,
              ))
      ];
      apart = λ d e i k live live' a b eq. elim (table_cases d i) [
        | inl (p, q, r) ↦ elim (table_cases e k) [
          | inl (p', q', r') ↦ (p ∙ sym p', q ∙ sym q')
          | inr (same, at) ↦ absurd (not_new e k live' (sym same ∙ b) (sym at ∙ sym eq ∙ r))
        ]
        | inr (same, at) ↦ elim (table_cases e k) [
          | inl (p', q', r') ↦ absurd (not_new d i live (sym same ∙ a) (sym at ∙ eq ∙ r'))
          | inr (same', at') ↦
              owned.apart d e i k live live' (sym same ∙ a) (sym same' ∙ b) (sym at ∙ eq ∙ at')
        ]
      ];
      owners =
          Owners-same Live s.total_frames s.frame_bitmap (frame_at s) (frame_at tabled)
            frame_at-tabled owned.owners;
    }

-- `ensure_table` leaves a table for the address, and no page has got a frame or lost it.
pub ensure_table-Owned :
    (Live : Addr → Type 0) (s : Paging) (bs : List Block) (dir : Addr) (virt flags : ℕ)
    (s' : Paging)
    → Owned Live s bs
    → ensure_table s dir virt flags ≡ ok s'
    → (cs : List Block) × Owned Live s' cs
      × (has_table s' dir (pd_index virt) ≡ true)
      × ((d : Addr) (i j : ℕ) → Live d → frame_at s' d i j ≡ frame_at s d i j)
unfolding ensure_table
ensure_table-Owned Live s bs dir virt flags s' owned e =
    elim (Bool-cases (has_table s dir (pd_index virt))) [
      | inl there ↦
          (let same : s ≡ s' = ok_inj (rw there at e) in
            (
              bs,
              subst (λ u. Owned Live u bs) same owned,
              subst (λ u. has_table u dir (pd_index virt) ≡ true) same there,
              λ d i j live. ap (λ u. frame_at u d i j) (sym same),
            ))
      | inr missing ↦
          (let ((table, s1), given, rest) =
              bind_ok (allocate s page_table_bytes) _ (rw missing at e) in
            let (h, cs, at, fresh) =
              allocate-Fresh s bs page_table_bytes table s1 owned.heap_ok (omega arith)
                (omega arith) given in
            let same : tabled s dir virt flags table h ≡ s' =
              ap (λ u. with_table u dir virt flags table) (sym at) ∙ ok_inj rest in
            (
              cs,
              subst (λ u. Owned Live u cs) same
                  (Owned-tabled s dir virt flags table h Live bs cs owned missing fresh),
              subst (λ u. has_table u dir (pd_index virt) ≡ true) same
                  (has_table-tabled s dir virt flags table h),
              λ d i j live.
                  ap (λ u. frame_at u d i j) (sym same)
                  ∙ frame_at-tabled s dir virt flags table h Live bs cs owned missing fresh d i j
                      live,
            ))
    ]
