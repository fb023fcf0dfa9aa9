-- ===== src/Paging/Isolation.antt =====
-- In kernel/memory/paging.c, mapping or unmapping a page leaves every other page alone, and no two pages
-- share a frame.
use cocos_os.Base.{
  ℕ, ◌/◌, ◌^◌, ◌≡◌, refl, sym, ap, ◌∙◌, inl, inr, true, some, arith, List, Bool-cases, ok, bind_ok,
}
use cocos_os.Memory.{Addr}
use cocos_os.Memory.Blocks.{Block}
use cocos_os.Paging.{
  Paging, pd_index, pt_index, paging_virtual_to_physical, paging_is_page_present, ensure_table,
  entry_of, paging_map_page, paging_unmap_page, paging_free_frame,
}
use cocos_os.Paging.Tables.{ensure_table-Owned}
use cocos_os.Paging.Entries.{Owned-take, OthersKept-set_entry, ensure_frame-Owned}
use cocos_os.Paging.Owned.{
  has_table, frame_at, Owned, OthersKept, translation, virtual_to_physical-translation,
}
use cocos_os.Paging.Owners.{Elsewhere, Elsewhere-is_page}

kept_translation :
    (Live : Addr → Type 0) (s s' : Paging) (dir : Addr) (virt : ℕ)
    → OthersKept Live s dir virt s'
    → (d : Addr) (virt' : ℕ) → Live d
    → Elsewhere dir virt d virt'
    → paging_virtual_to_physical s' d virt' ≡ paging_virtual_to_physical s d virt'
kept_translation Live s s' dir virt kept d virt' live away =
    virtual_to_physical-translation s' d virt'
    ∙ ap (λ o. translation o virt')
        (kept d (pd_index virt') (pt_index virt') live (Elsewhere-is_page dir virt d virt' away))
    ∙ sym (virtual_to_physical-translation s d virt')

map_page_lem :
    (Live : Addr → Type 0) (s : Paging) (bs : List Block) (dir : Addr) (virt flags : ℕ)
    (s' : Paging)
    → Owned Live s bs
    → Live dir
    → paging_map_page s dir virt flags ≡ ok s'
    → (cs : List Block) × Owned Live s' cs × OthersKept Live s dir virt s'
unfolding paging_map_page
map_page_lem Live s bs dir virt flags s' owned live e =
    let (s1, first, rest) = bind_ok (ensure_table s dir virt flags) _ e in
    let (cs, owned1, there, same) = ensure_table-Owned Live s bs dir virt flags s1 owned first in
    let (owned', kept) = ensure_frame-Owned Live s1 cs dir virt owned1 live there flags s' rest in
    (cs, owned', λ d i j l off. kept d i j l off ∙ same d i j l)

-- In a state where every table and frame has one owner among the directories in use, a `paging_map_page` in
-- one of them that returns leaves such a state, and every other page of them translates as before.
pub paging_map_page-Owned :
    (Live : Addr → Type 0) (s : Paging) (bs : List Block) (dir : Addr) (virt flags : ℕ)
    (s' : Paging)
    → Owned Live s bs
    → Live dir
    → paging_map_page s dir virt flags ≡ ok s'
    → (cs : List Block) × Owned Live s' cs
      × ((d : Addr) (virt' : ℕ)
          → Live d
          → Elsewhere dir virt d virt'
          → paging_virtual_to_physical s' d virt' ≡ paging_virtual_to_physical s d virt')
paging_map_page-Owned Live s bs dir virt flags s' owned live e =
    let (cs, owned', kept) = map_page_lem Live s bs dir virt flags s' owned live e in
    (cs, owned', kept_translation Live s s' dir virt kept)

unmap_page_lem :
    (Live : Addr → Type 0) (s : Paging) (bs : List Block) (dir : Addr) (virt : ℕ)
    → Owned Live s bs
    → Live dir
    → Owned Live (paging_unmap_page s dir virt) bs
      × OthersKept Live s dir virt (paging_unmap_page s dir virt)
unfolding paging_unmap_page paging_free_frame
unmap_page_lem Live s bs dir virt owned live = elim (Bool-cases (has_table s dir (pd_index virt))) [
  | inr h ↦ rw h (owned, λ d i j l off. refl)
  | inl h ↦ elim (Bool-cases (entry_of s dir virt).present) [
    | inr e ↦ rw (h, e) (owned, λ d i j l off. refl)
    | inl e ↦
        (let had : frame_at s dir (pd_index virt) (pt_index virt)
              ≡ some (entry_of s dir virt).frame =
            rw (h, e) in
          rw (h, e)
            (
              Owned-take Live s bs dir virt owned live h (entry_of s dir virt).frame _ had refl,
              OthersKept-set_entry Live s bs dir virt owned live h _,
            ))
  ]
]

-- In such a state, `paging_unmap_page` in a directory in use leaves such a state, and every other page of
-- the directories in use translates as before.
pub paging_unmap_page-Owned :
    (Live : Addr → Type 0) (s : Paging) (bs : List Block) (dir : Addr) (virt : ℕ)
    → Owned Live s bs
    → Live dir
    → Owned Live (paging_unmap_page s dir virt) bs
      × ((d : Addr) (virt' : ℕ)
          → Live d
          → Elsewhere dir virt d virt'
          → paging_virtual_to_physical (paging_unmap_page s dir virt) d virt'
            ≡ paging_virtual_to_physical s d virt')
paging_unmap_page-Owned Live s bs dir virt owned live =
    let (owned', kept) = unmap_page_lem Live s bs dir virt owned live in
    (owned', kept_translation Live s (paging_unmap_page s dir virt) dir virt kept)

some_frame :
    (s : Paging) (d : Addr) (virt : ℕ)
    → paging_is_page_present s d virt ≡ true
    → (f : ℕ) × (frame_at s d (pd_index virt) (pt_index virt) ≡ some f)
      × (paging_virtual_to_physical s d virt / 2 ^ 12 ≡ f)
unfolding paging_is_page_present
some_frame s d virt present = elim (Bool-cases (has_table s d (pd_index virt))) [
  | inr h ↦ cc (rw h at present)
  | inl h ↦ elim (Bool-cases (entry_of s d virt).present) [
    | inr e ↦ cc (rw (h, e) at present)
    | inl e ↦
        (let f = (entry_of s d virt).frame in
          let at : frame_at s d (pd_index virt) (pt_index virt) ≡ some f = rw (h, e) in
          let value = virtual_to_physical-translation s d virt ∙ ap (λ o. translation o virt) at in
          (f, at, omega (arith, value)))
  ]
]

-- In such a state two pages of directories in use that are present and stand in the same physical page are
-- one page of one directory.
pub Owned-present :
    (Live : Addr → Type 0) (s : Paging) (bs : List Block) (d e : Addr) (virt virt' : ℕ)
    → Owned Live s bs
    → Live d
    → Live e
    → paging_is_page_present s d virt ≡ true
    → paging_is_page_present s e virt' ≡ true
    → paging_virtual_to_physical s d virt / 2 ^ 12 ≡ paging_virtual_to_physical s e virt' / 2 ^ 12
    → (d ≡ e) × (virt / 2 ^ 12 ≡ virt' / 2 ^ 12)
Owned-present Live s bs d e virt virt' owned live live' here here' same =
    let (f, at, value) = some_frame s d virt here in
    let (g, at', value') = some_frame s e virt' here' in
    let one : g ≡ f = omega (arith, same, value, value') in
    let (p, q, r) =
      owned.owners.alone d e (pd_index virt) (pt_index virt) (pd_index virt') (pt_index virt') f
        live live' at (at' ∙ ap (λ n. some n) one) in
    (p, omega (arith, q, r))
