-- ===== src/Vfs/Owned.antt =====
-- The nodes of filesystem/vfs.c and their data own blocks of the heap of kernel/memory/memory.c.
use cocos_os.Base.{
  In, ℕ, ◌+◌, ◌-◌, ◌<◌, ◌≤◌, ◌≡◌, ◌≢◌, refl, sym, ap, ◌∙◌, ◌⊎◌, inl, inr, some, List, [], ◌∷◌, ◌++◌,
  arith, ◌==◌, Bool-cases, ==_iff, ==_of_ne, some_inj, length, length-take, take, Text, str_eq,
}
use mathlib.Core.Path.{subst}
use cocos_os.Memory.{Addr, null}
use cocos_os.Memory.Blocks.{Block}
use cocos_os.Memory.Safety.{InUse}
use cocos_os.Memory.HandedOut.{Added}
use cocos_os.Memory.Counts.{times, times-append, times_cons}
use cocos_os.Memory.Ledger.{Ledger, Ledger-alloc}
use cocos_os.Vfs.{max_name, vfs_node_bytes, VfsNode, Vfs, vfs_find, vfs_create, set_data}
use cocos_os.Vfs.Table.{contents, table, owned, data_times, owned_cons}

-- A node stands in a block, its data in another, both in use and long enough; its name is cut, and
-- its size is that of its data.
pub record Placed (start : Addr) (bs : List Block) (bytes : Addr → List ℕ) (n : VfsNode)
    : Type 0 where
  pub structure : (k : ℕ) × (vfs_node_bytes ≤ k) × InUse n.address k start bs
  pub data_room :
      (n.bytes_at ≡ null)
      ⊎ ((k : ℕ) × (length (bytes n.bytes_at) ≤ k) × InUse n.bytes_at k start bs)
  pub sized : n.size ≡ length (contents bytes n)
  pub cut : length n.name < max_name

-- The list owns its blocks, apart from what others hold.
pub record Owns (start end : Addr) (others : List Addr) (s : Vfs) (bs : List Block) : Type 0 where
  pub ledger : Ledger start end (owned s.nodes ++ others) s.heap bs
  pub placed : (n : VfsNode) → In s.nodes n → Placed start bs s.bytes n

pub find-In : (name : Text) (ns : List VfsNode) (n : VfsNode) → vfs_find name ns ≡ some n → In ns n
unfolding vfs_find
find-In name [] n e = cc e
find-In name (m ∷ ms) n e = elim (Bool-cases (str_eq m.name name)) [
  | inl here ↦ inl (sym (some_inj (rw here at e)))
  | inr other ↦ inr (find-In name ms n (rw other at e))
]

-- A node of the list after a change is one of before, or the one that was found, changed.
pub set_data-In :
    (name : Text) (size : ℕ) (p : Addr) (ns : List VfsNode) (n m : VfsNode)
    → vfs_find name ns ≡ some n
    → In (set_data name size p ns) m
    → (m ≡ record n { size = size; bytes_at = p }) ⊎ In ns m
unfolding vfs_find set_data
set_data-In name size p [] n m e i = cc e
set_data-In name size p (x ∷ xs) n m e i = elim (Bool-cases (str_eq x.name name)) [
  | inl here ↦ elim (rw here at i) [
    | inl same ↦ inl (
        same
        ∙ ap (λ (y : VfsNode). record y { size = size; bytes_at = p }) (some_inj (rw here at e)))
    | inr later ↦ inr (inr later)
  ]
  | inr other ↦ elim (rw other at i) [
    | inl same ↦ inr (inl same)
    | inr later ↦ elim (set_data-In name size p xs n m (rw other at e) later) [
      | inl changed ↦ inl changed
      | inr old ↦ inr (inr old)
    ]
  ]
]

-- Counting what the list and others hold, as one changes.
pub with_others :
    (q p : Addr) (xs ys others : List Addr)
    → times q ys ≡ times q (p ∷ xs)
    → times q (ys ++ others) ≡ times q (p ∷ (xs ++ others))
with_others q p xs ys others e = omega (
  arith,
  e,
  times-append q xs others,
  times-append q ys others,
  times_cons q p xs,
  times_cons q p (xs ++ others),
)

-- What no node of the list owns is neither where a node stands nor where its data do.
pub owned-apart :
    (q : Addr) (ns : List VfsNode) (n : VfsNode)
    → times q (owned ns) ≡ 0
    → In ns n
    → (n.address ≢ q) × (n.bytes_at ≢ null → n.bytes_at ≢ q)
owned-apart q [] n e i = absurd i
owned-apart q (m ∷ ms) n e (inr i) = owned-apart q ms n (omega (arith, owned_cons q m ms)) i
owned-apart q (m ∷ ms) n e (inl same) =
    let count : times q (n.address ∷ []) + data_times q n.bytes_at ≡ 0 =
      ap (λ (x : VfsNode). times q (x.address ∷ []) + data_times q x.bytes_at) same
      ∙ omega (arith, owned_cons q m ms) in
    (λ at. absurd (ground arith), λ full at. absurd (ground arith))

-- A node whose blocks and bytes stay is placed as before.
pub Placed-keep :
    (start : Addr) (bs cs : List Block) (bytes bytes' : Addr → List ℕ) (n : VfsNode)
    → ((k : ℕ) → InUse n.address k start bs → InUse n.address k start cs)
    → (n.bytes_at ≢ null
        → (bytes' n.bytes_at ≡ bytes n.bytes_at)
          × ((k : ℕ) → InUse n.bytes_at k start bs → InUse n.bytes_at k start cs))
    → Placed start bs bytes n
    → Placed start cs bytes' n
unfolding contents
Placed-keep start bs cs bytes bytes' n at_node at_data h = record {
  structure = let (k, room, used) = h.structure in (k, room, at_node k used);
  data_room = elim (Bool-cases (n.bytes_at == null)) [
    | inl empty ↦ inl (ground arith)
    | inr full ↦ elim h.data_room [
      | inl e ↦ inl e
      | inr r ↦
          (let (k, room, used) = r in
            let (same, still) = at_data (ground arith) in inr (k, rw same room, still k used))
    ]
  ];
  sized = h.sized ∙ sym (ap length same_contents);
  cut = h.cut;
}
  where
    same_contents : contents bytes' n ≡ contents bytes n
    same_contents = elim (Bool-cases (n.bytes_at == null)) [
      | inl empty ↦ rw empty
      | inr full ↦ rw full (at_data (ground arith)).0
    ]

module _ (start end : Addr) (others : List Addr) where
  new_node :
      (bs cs : List Block) (p : Addr) (name : Text) (bytes : Addr → List ℕ)
      → Added vfs_node_bytes p start bs cs
      → Placed start cs bytes
          (record { address = p; name = take (max_name - 1) name; size = 0; bytes_at = null })
  unfolding contents
  new_node bs cs p name bytes (room, others) = record {
    structure = room;
    data_room = inl refl;
    sized = refl;
    cut = omega (arith, length-take (max_name - 1) name);
  }

  -- `vfs_create` returns; without memory nothing changes.
  pub vfs_create-Owns :
      (s : Vfs) (bs : List Block) (name : Text)
      → Owns start end others s bs
      → (vfs_create s name ≡ some (0, s))
        ⊎ ((s' : Vfs) × (vfs_create s name ≡ some (1, s'))
            × ((cs : List Block) × Owns start end others s' cs)
            × (table s'.bytes s'.nodes ≡ (take (max_name - 1) name, []) ∷ table s.bytes s.nodes))
  unfolding vfs_create owned table contents
  vfs_create-Owns s bs name h =
      let (p, h', got, outcome) =
        Ledger-alloc start end (owned s.nodes ++ others) s.heap bs vfs_node_bytes h.ledger
          (omega arith) in
      elim outcome [
        | inl refused ↦ inl (
            rw (got, vfs_create, (==_iff p null).1 refused.0)
              (ap (λ t. some (0, record s { heap = t })) refused.1))
        | inr (ne, cs, new, ledger, added) ↦ inr (
          record s {
            nodes =
                record { address = p; name = take (max_name - 1) name; size = 0; bytes_at = null }
                ∷ s.nodes;
            heap = h';
          },
          rw (got, vfs_create, ==_of_ne ne),
          (
            cs,
            record {
              ledger = ledger (p ∷ (owned s.nodes ++ others)) (λ q. refl);
              placed = λ n i. elim i [
                | inl same ↦
                    subst (Placed start cs s.bytes) (sym same) (new_node bs cs p name s.bytes added)
                | inr old ↦
                    Placed-keep start bs cs s.bytes s.bytes n (λ k. λ u. (added.1 n.address k u).1)
                      (λ full. (refl, λ k u. (added.1 n.bytes_at k u).1)) (h.placed n old)
              ];
            },
          ),
          refl,
        )
      ]
