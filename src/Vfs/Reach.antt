-- ===== src/Vfs/Reach.antt =====
-- What any calls of filesystem/vfs.c lead to, among the calls of other holders of the heap.
use cocos_os.Base.{
  In, ℕ, ◌+◌, ◌^◌, ◌<◌, ◌≡◌, ◌≢◌, refl, sym, ap, ◌∙◌, inl, inr, some, List, [], ◌∷◌, ◌++◌, some_inj,
  update, update-ne, length, Text,
}
use mathlib.Core.Path.{subst}
use cocos_os.Memory.{Addr, null, Heap, memory_alloc, memory_free}
use cocos_os.Memory.Blocks.{Block}
use cocos_os.Memory.HandedOut.{without}
use cocos_os.Memory.Counts.{times_others, times_middle, times}
use cocos_os.Memory.Ledger.{Ledger-Got, Ledger-release}
use cocos_os.Vfs.{Vfs, vfs_init, vfs_create, vfs_write}
use cocos_os.Vfs.Table.{owned}
use cocos_os.Vfs.Owned.{Owns, Placed-keep, owned-apart, vfs_create-Owns}
use cocos_os.Vfs.Refine.{vfs_write-Owns}

-- The addresses that others hold and the state, after calls of this file and of others: these take
-- and free payloads of the heap, and write to what they hold.
pub data Reach (s0 : Vfs) : List Addr → Vfs → Type 0 where
  here : Reach s0 [] s0
  init :
      {others : List Addr} {s : Vfs}
      → Reach s0 others s
      → Reach s0 (owned s.nodes ++ others) (vfs_init s)
  create :
      {others : List Addr} {s : Vfs} (name : Text) (made : ℕ) (s' : Vfs)
      → Reach s0 others s
      → vfs_create s name ≡ some (made, s')
      → Reach s0 others s'
  write :
      {others : List Addr} {s : Vfs} (name : Text) (content : List ℕ) (result : ℕ) (s' : Vfs)
      → Reach s0 others s
      → length content + 3 < 2 ^ 32
      → vfs_write s name content ≡ some (result, s')
      → Reach s0 others s'
  obtain :
      {others : List Addr} {s : Vfs} (size : ℕ) (p : Addr) (h : Heap)
      → Reach s0 others s
      → size + 3 < 2 ^ 32
      → memory_alloc s.heap size ≡ some (p, h)
      → p ≢ null
      → Reach s0 (p ∷ others) (record s { heap = h })
  release :
      {others : List Addr} {s : Vfs} (p : Addr) (h : Heap)
      → Reach s0 others s
      → In others p
      → memory_free s.heap p ≡ some h
      → Reach s0 (without p others) (record s { heap = h })
  fill :
      {others : List Addr} {s : Vfs} (p : Addr) (content : List ℕ)
      → Reach s0 others s
      → In others p
      → Reach s0 others (record s { bytes = update s.bytes p content })

module _ (start end : Addr) where
  unfoldable pub Owned : List Addr → Vfs → Type 0
  Owned others s = (bs : List Block) × Owns start end others s bs

  -- What others hold no node owns.
  pub unowned :
      (others : List Addr) (s : Vfs) (bs : List Block) (p : Addr)
      → Owns start end others s bs
      → In others p
      → times p (owned s.nodes) ≡ 0
  unowned others s bs p own i = times_others p (owned s.nodes) others own.ledger.once i

  init-Owned :
      (others : List Addr) (s : Vfs) → Owned others s → Owned (owned s.nodes ++ others) (vfs_init s)
  unfolding Owned vfs_init owned
  init-Owned others s (bs, own) = (bs, record { ledger = own.ledger; placed = λ n i. absurd i })

  create-Owned :
      (others : List Addr) (s : Vfs) (name : Text) (made : ℕ) (s' : Vfs)
      → Owned others s
      → vfs_create s name ≡ some (made, s')
      → Owned others s'
  unfolding Owned
  create-Owned others s name made s' (bs, own) got =
      elim (vfs_create-Owns start end others s bs name own) [
        | inl refused ↦
            subst (Owned others) (ap (λ (r : ℕ × Vfs). r.1) (some_inj (sym refused ∙ got)))
              (bs, own)
        | inr (t, run, now, same) ↦
            subst (Owned others) (ap (λ (r : ℕ × Vfs). r.1) (some_inj (sym run ∙ got))) now
      ]

  write-Owned :
      (others : List Addr) (s : Vfs) (name : Text) (content : List ℕ) (result : ℕ) (s' : Vfs)
      → Owned others s
      → length content + 3 < 2 ^ 32
      → vfs_write s name content ≡ some (result, s')
      → Owned others s'
  unfolding Owned
  write-Owned others s name content result s' (bs, own) small got =
      let (r, t, run, now, ends) = vfs_write-Owns start end others name content s bs own small in
      subst (Owned others) (ap (λ (x : ℕ × Vfs). x.1) (some_inj (sym run ∙ got))) now

  obtain-Owned :
      (others : List Addr) (s : Vfs) (size : ℕ) (p : Addr) (h : Heap)
      → Owned others s
      → size + 3 < 2 ^ 32
      → memory_alloc s.heap size ≡ some (p, h)
      → p ≢ null
      → Owned (p ∷ others) (record s { heap = h })
  unfolding Owned
  obtain-Owned others s size p h (bs, own) small got ne =
      let (cs, new, ledger, added) =
        Ledger-Got start end (owned s.nodes ++ others) s.heap bs size p h own.ledger small got ne in
      (
        cs,
        record {
          ledger =
              ledger (owned s.nodes ++ (p ∷ others)) (λ q. times_middle q p (owned s.nodes) others);
          placed = λ n i.
              Placed-keep start bs cs s.bytes s.bytes n (λ k u. (added.1 n.address k u).1)
                (λ full. (refl, λ k u. (added.1 n.bytes_at k u).1)) (own.placed n i);
        },
      )

  release-Owned :
      (others : List Addr) (s : Vfs) (p : Addr) (h : Heap)
      → Owned others s
      → In others p
      → memory_free s.heap p ≡ some h
      → Owned (without p others) (record s { heap = h })
  unfolding Owned
  release-Owned others s p h (bs, own) i got =
      let (apart, cs, ledger, still) =
        Ledger-release start end (owned s.nodes) others s.heap bs p h own.ledger i got in
      (
        cs,
        record {
          ledger = ledger;
          placed = λ n at.
              let (node, content) = owned-apart p s.nodes n apart at in
              Placed-keep start bs cs s.bytes s.bytes n (λ k u. still n.address k node u)
                (λ full. (refl, λ k u. still n.bytes_at k (content full) u)) (own.placed n at);
        },
      )

  fill-Owned :
      (others : List Addr) (s : Vfs) (p : Addr) (content : List ℕ)
      → Owned others s
      → In others p
      → Owned others (record s { bytes = update s.bytes p content })
  unfolding Owned
  fill-Owned others s p content (bs, own) i = (
    bs,
    record {
      ledger = own.ledger;
      placed = λ n at.
          Placed-keep start bs bs s.bytes (update s.bytes p content) n (λ k u. u)
            (λ full. (
              update-ne s.bytes p content n.bytes_at
                  ((owned-apart p s.nodes n (unowned others s bs p own i) at).1 full),
              λ k u. u,
            ))
            (own.placed n at);
    },
  )

  pub Reach-Owned_from :
      (s0 : Vfs) → Owned [] s0 → (others : List Addr) (s : Vfs) → Reach s0 others s → Owned others s
  Reach-Owned_from s0 h _ _ here = h
  Reach-Owned_from s0 h _ _ (init {others = o} {s = s} r) =
      init-Owned o s (Reach-Owned_from s0 h o s r)
  Reach-Owned_from s0 h _ _ (create {others = o} {s = s} name made s' r got) =
      create-Owned o s name made s' (Reach-Owned_from s0 h o s r) got
  Reach-Owned_from s0 h _ _ (write {others = o} {s = s} name content result s' r small got) =
      write-Owned o s name content result s' (Reach-Owned_from s0 h o s r) small got
  Reach-Owned_from s0 h _ _ (obtain {others = o} {s = s} size p t r small got ne) =
      obtain-Owned o s size p t (Reach-Owned_from s0 h o s r) small got ne
  Reach-Owned_from s0 h _ _ (release {others = o} {s = s} p t r i got) =
      release-Owned o s p t (Reach-Owned_from s0 h o s r) i got
  Reach-Owned_from s0 h _ _ (fill {others = o} {s = s} p content r i) =
      fill-Owned o s p content (Reach-Owned_from s0 h o s r) i
