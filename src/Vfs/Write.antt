-- ===== src/Vfs/Write.antt =====
-- What vfs_write of filesystem/vfs.c does to the blocks that the nodes own.
use cocos_os.Base.{
  ℕ, ◌≡◌, ◌≢◌, refl, sym, ap, ap₂, ◌∙◌, inl, inr, some, List, ◌∷◌, ◌++◌, arith, ◌==◌, Bool-cases,
  ==_iff, ==_of_ne, ==_self, update, update-ne, length, Text,
}
use mathlib.Core.Path.{subst}
use cocos_os.Memory.{Addr, null, Heap}
use cocos_os.Memory.Blocks.{Block}
use cocos_os.Memory.HandedOut.{Added}
use cocos_os.Memory.Counts.{times, times-append, times_self}
use cocos_os.Memory.Ledger.{Ledger, Ledger-free}
use cocos_os.Vfs.{VfsNode, Vfs, vfs_find, set_data, free_data}
use cocos_os.Vfs.Nodes.{vfs_find-set_data}
use cocos_os.Vfs.Table.{contents, owned, set_data-set_data, set_data-same, owned-set_data}
use cocos_os.Vfs.Owned.{Placed, Owns, find-In, set_data-In, with_others, owned-apart, Placed-keep}

-- What a list owns and its data of before, once the data of a node are taken from it.
taken :
    (name : Text) (ns : List VfsNode) (n : VfsNode) (q : Addr)
    → vfs_find name ns ≡ some n
    → n.bytes_at ≢ null
    → times q (owned ns) ≡ times q (n.bytes_at ∷ owned (set_data name 0 null ns))
taken name ns n q e ne =
    let bare = set_data name 0 null ns in
    let back : set_data name n.size n.bytes_at bare ≡ ns =
      set_data-set_data name n.size 0 n.bytes_at null ns ∙ set_data-same name ns n e in
    ap (λ l. times q (owned l)) (sym back)
    ∙ owned-set_data name n.size n.bytes_at q bare (record n { size = 0; bytes_at = null })
        (vfs_find-set_data name 0 null ns n e) refl ne

-- A node without data is placed where its structure is.
Placed-bare :
    (start : Addr) (bs : List Block) (bytes : Addr → List ℕ) (n : VfsNode)
    → Placed start bs bytes n
    → Placed start bs bytes (record n { size = 0; bytes_at = null })
unfolding contents
Placed-bare start bs bytes n h = record {
  structure = h.structure;
  data_room = inl refl;
  sized = refl;
  cut = h.cut;
}

-- A node without data has none to take.
unchanged :
    (bytes : Addr → List ℕ) (name : Text) (ns : List VfsNode) (n : VfsNode)
    → vfs_find name ns ≡ some n
    → n.bytes_at ≡ null
    → n.size ≡ length (contents bytes n)
    → ns ≡ set_data name 0 null ns
unfolding contents
unchanged bytes name ns n e empty sized =
    let none_yet : n.size ≡ 0 = sized ∙ rw ((==_iff n.bytes_at null).1 empty) in
    sym (ap₂ (λ k p. set_data name k p ns) (sym none_yet) (sym empty) ∙ set_data-same name ns n e)

-- A node that has got data is placed where its structure and they are.
Placed-filled :
    (start : Addr) (bs cs : List Block) (bytes : Addr → List ℕ) (n : VfsNode) (content : List ℕ)
    (p : Addr)
    → p ≢ null
    → Added (length content) p start bs cs
    → Placed start bs bytes n
    → Placed start cs (update bytes p content) (record n { size = length content; bytes_at = p })
unfolding contents
Placed-filled start bs cs bytes n content p ne added h =
    let (k, room, used) = added.0 in
    record {
      structure = let (l, wide, at) = h.structure in (l, wide, (added.1 n.address l at).1);
      data_room = inr (k, rw (==_self p) room, used);
      sized = rw (==_of_ne ne, ==_self p);
      cut = h.cut;
    }

module _ (start end : Addr) (others : List Addr) (name : Text) where
  abbrev pub bare : Vfs → Heap → Vfs
  bare s h = record s { nodes = set_data name 0 null s.nodes; heap = h }

  -- The data of the node that is found are freed.
  pub free_data-Owns :
      (s : Vfs) (bs : List Block) (n : VfsNode)
      → Owns start end others s bs
      → vfs_find name s.nodes ≡ some n
      → (h : Heap) × (free_data s.heap n.bytes_at ≡ some h)
        × (cs : List Block) × Owns start end others (bare s h) cs
  free_data-Owns s bs n own e = elim (Bool-cases (n.bytes_at == null)) [
    | inl empty ↦ (
      s.heap,
      rw empty,
      bs,
      subst (λ t. Owns start end others t bs)
          (ap (λ l. record s { nodes = l })
            (unchanged s.bytes name s.nodes n e (ground arith)
              (own.placed n (find-In name s.nodes n e)).sized))
          own,
    )
    | inr full ↦
        (let ne : n.bytes_at ≢ null = ground arith in
          let count = λ (q : Addr).
            with_others q n.bytes_at (owned (set_data name 0 null s.nodes)) (owned s.nodes) others
              (taken name s.nodes n q e ne) in
          let (h, run, cs, ledger, still) =
            Ledger-free start end (owned s.nodes ++ others)
              (owned (set_data name 0 null s.nodes) ++ others) s.heap bs n.bytes_at own.ledger
              count in
          (
            h,
            rw full run,
            cs,
            record {
              ledger = ledger;
              placed = λ m i.
                  let gone = count n.bytes_at in
                  let apart =
                    owned-apart n.bytes_at (set_data name 0 null s.nodes) m (bare_times gone) i in
                  Placed-keep start bs cs s.bytes s.bytes m
                    (λ k used. still m.address k apart.0 used)
                    (λ full. (refl, λ k used. still m.bytes_at k (apart.1 full) used))
                    (elim (set_data-In name 0 null s.nodes n m e i) [
                      | inl same ↦
                          subst (Placed start bs s.bytes) (sym same) (
                            Placed-bare start bs s.bytes n
                              (own.placed n (find-In name s.nodes n e)))
                      | inr old ↦ own.placed m old
                    ]);
            },
          ))
  ]
    where
      bare_times :
          times n.bytes_at (owned s.nodes ++ others)
            ≡ times n.bytes_at (n.bytes_at ∷ (owned (set_data name 0 null s.nodes) ++ others))
          → times n.bytes_at (owned (set_data name 0 null s.nodes)) ≡ 0
      bare_times count = omega (
        arith,
        count,
        own.ledger.once n.bytes_at,
        times_self n.bytes_at (owned (set_data name 0 null s.nodes) ++ others),
        times-append n.bytes_at (owned (set_data name 0 null s.nodes)) others,
      )

  -- New data are stored where `Memory_alloc` has found room.
  pub store_data-Owns :
      (s : Vfs) (bs cs : List Block) (n : VfsNode) (content : List ℕ) (p : Addr) (h : Heap)
      → Owns start end others s bs
      → vfs_find name s.nodes ≡ some n
      → n.bytes_at ≡ null
      → p ≢ null
      → times p (owned s.nodes ++ others) ≡ 0
      → ((rs : List Addr)
          → ((q : Addr) → times q rs ≡ times q (p ∷ (owned s.nodes ++ others)))
          → Ledger start end rs h cs)
      → Added (length content) p start bs cs
      → Owns start end others
          (record s {
            nodes = set_data name (length content) p s.nodes;
            heap = h;
            bytes = update s.bytes p content;
          })
          cs
  store_data-Owns s bs cs n content p h own e empty ne new ledger added = record {
    ledger = ledger (owned (set_data name (length content) p s.nodes) ++ others) (λ q.
        with_others q p (owned s.nodes) (owned (set_data name (length content) p s.nodes)) others
          (owned-set_data name (length content) p q s.nodes n e empty ne));
    placed = λ m i. elim (set_data-In name (length content) p s.nodes n m e i) [
      | inl same ↦ subst (Placed start cs (update s.bytes p content)) (sym same) (
          Placed-filled start bs cs s.bytes n content p ne added
            (own.placed n (find-In name s.nodes n e)))
      | inr old ↦
          (let unowned : times p (owned s.nodes) ≡ 0 =
              omega (arith, new, times-append p (owned s.nodes) others) in
            let apart = owned-apart p s.nodes m unowned old in
            Placed-keep start bs cs s.bytes (update s.bytes p content) m
              (λ k used. (added.1 m.address k used).1)
              (λ full. (
                update-ne s.bytes p content m.bytes_at (apart.1 full),
                λ k used. (added.1 m.bytes_at k used).1,
              ))
              (own.placed m old))
    ];
  }
