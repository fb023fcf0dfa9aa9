-- ===== src/Paging/Directories.antt =====
-- A new page directory of kernel/memory/paging.c, or other memory, takes nothing from the directories in use.
use cocos_os.Base.{
  In, ℕ, ◌+◌, ◌^◌, ◌<◌, ◌≡◌, ◌≢◌, refl, sym, ap, ◌∙◌, inl, inr, true, false, arith, some, List, ◌∷◌,
  ◌==◌, Bool-cases, update, update_self, update-ne, ==_iff, ok, ok_inj, bind_ok,
}
use mathlib.Core.Path.{subst}
use cocos_os.Memory.{Addr}
use cocos_os.Memory.Blocks.{Block}
use cocos_os.Memory.Safety.{InUse}
use cocos_os.Paging.{
  PageDirectory, Paging, page_directory_bytes, allocate, is_present, paging_create_directory,
}
use cocos_os.Paging.Fresh.{allocate-Fresh}
use cocos_os.Paging.Owned.{has_table, table_at, frame_at, frame_in, Owned}

-- More of the heap is in use.
pub allocate-Owned :
    (Live : Addr → Type 0) (s : Paging) (bs : List Block) (size : ℕ) (p : Addr) (s' : Paging)
    → Owned Live s bs
    → 0 < size
    → size + 3 < 2 ^ 32
    → allocate s size ≡ ok (p, s')
    → (cs : List Block) × Owned Live s' cs
allocate-Owned Live s bs size p s' owned pos small e =
    let (h, cs, at, fresh) = allocate-Fresh s bs size p s' owned.heap_ok pos small e in
    let moved : Owned Live (record s { heap = h }) cs = record {
      heap_ok = fresh.0;
      few = owned.few;
      tabled = λ d i live there.
          let (n, room, used) = owned.tabled d i live there in
          (n, room, (fresh.2 (table_at s d i) n used).0);
      apart = owned.apart;
      owners = owned.owners;
    } in
    (cs, subst (λ u. Owned Live u cs) (sym at) moved)

-- A new, empty directory, at an address that may be any.
module _ (dirs : List Addr) (s : Paging) (bs : List Block) (dir : Addr) (empty : PageDirectory)
    (no_entry : (i : ℕ) → is_present (empty.entries i) ≡ false) (owned : Owned (In dirs) s bs) where
  abbrev created : Paging
  created = record s { directories = update s.directories dir empty }

  -- What has a table is another directory, from before.
  old :
      (d : Addr) (i : ℕ)
      → In (dir ∷ dirs) d
      → has_table created d i ≡ true
      → In dirs d × (created.directories d ≡ s.directories d)
  old d i live there = elim (Bool-cases (d == dir)) [
    | inl same ↦
        (let at : created.directories d ≡ empty =
            ap (update s.directories dir empty) ((==_iff d dir).0 same)
            ∙ update_self s.directories dir empty in
          cc (
            sym (no_entry i)
            ∙ sym (ap (λ (t : PageDirectory). is_present (t.entries i)) at)
            ∙ there))
    | inr off ↦
        (let ne : d ≢ dir = λ p. absurd (ground arith) in
          (elim live [ inl p ↦ absurd (ne p) | inr l ↦ l ], update-ne s.directories dir empty d ne))
  ]

  old_table :
      (d : Addr) (i : ℕ)
      → In (dir ∷ dirs) d
      → has_table created d i ≡ true
      → In dirs d × (has_table s d i ≡ true) × (table_at created d i ≡ table_at s d i)
  old_table d i live there =
      let (l, same) = old d i live there in
      (
        l,
        sym (ap (λ (t : PageDirectory). is_present (t.entries i)) same) ∙ there,
        ap (λ (t : PageDirectory). t.tables_virtual i) same,
      )

  old_frame :
      (d : Addr) (i j f : ℕ)
      → In (dir ∷ dirs) d
      → frame_at created d i j ≡ some f
      → In dirs d × (frame_at s d i j ≡ some f)
  old_frame d i j f live e = elim (Bool-cases (has_table created d i)) [
    | inr off ↦ cc (rw off at e)
    | inl there ↦
        (let (l, same) = old d i live there in
          (
            l,
            sym (
                  ap
                    (λ (t : PageDirectory).
                      frame_in (is_present (t.entries i)) (s.tables (t.tables_virtual i) j))
                    same)
                ∙ e,
          ))
  ]

  created-Owned : Owned (In (dir ∷ dirs)) created bs
  created-Owned = record {
    heap_ok = owned.heap_ok;
    few = owned.few;
    tabled = λ d i live there.
        let (l, h, at) = old_table d i live there in
        let (n, room, used) = owned.tabled d i l h in
        (n, room, subst (λ t. InUse t n s.heap.heap_start bs) (sym at) used);
    apart = λ d e i k live live' a b eq.
        let (l, h, at) = old_table d i live a in
        let (l', h', at') = old_table e k live' b in
        owned.apart d e i k l l' h h' (sym at ∙ eq ∙ at');
    owners = record {
      bytes = owned.owners.bytes;
      taken = λ d i j f live e.
          let (l, at) = old_frame d i j f live e in owned.owners.taken d i j f l at;
      alone = λ d e i j k l f live live' p q.
          let (m, at) = old_frame d i j f live p in
          let (m', at') = old_frame e k l f live' q in owned.owners.alone d e i j k l f m m' at at';
    };
  }

pub create-Owned :
    (dirs : List Addr) (s : Paging) (bs : List Block) (dir : Addr) (s' : Paging)
    → Owned (In dirs) s bs
    → paging_create_directory s ≡ ok (dir, s')
    → (cs : List Block) × Owned (In (dir ∷ dirs)) s' cs
unfolding paging_create_directory
create-Owned dirs s bs dir s' owned e =
    let ((p, s1), given, rest) = bind_ok (allocate s page_directory_bytes) _ e in
    let (cs, owned1) =
      allocate-Owned (In dirs) s bs page_directory_bytes p s1 owned (omega arith) (omega arith)
        given in
    (
      cs,
      subst (λ (r : Addr × Paging). Owned (In (r.0 ∷ dirs)) r.1 cs) (ok_inj rest)
          (created-Owned dirs s1 cs p _ (λ i. refl) owned1),
    )
