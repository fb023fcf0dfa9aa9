-- ===== src/Vfs/Refine.antt =====
-- The calls of filesystem/vfs.c as operations on a table of names and contents.
use cocos_os.Base.{
  FileTable, lookup, put, In, ℕ, ◌+◌, ◌^◌, ◌<◌, ◌≡◌, refl, ap, ap₂, ◌∙◌, ◌⊎◌, inl, inr, none, some,
  List, [], ◌++◌, arith, ltb, min, take, drop, ◌==◌, if◌then◌else◌, Bool-cases, Option-cases,
  ==_of_ne, update, length, Text,
}
use mathlib.Core.Path.{subst}
use cocos_os.Memory.{Addr, null, Heap, memory_alloc}
use cocos_os.Memory.Blocks.{Block}
use cocos_os.Memory.Counts.{times-append}
use cocos_os.Memory.Ledger.{Ledger-alloc}
use cocos_os.Vfs.{VfsNode, Vfs, vfs_find, set_data, store_data, vfs_write, vfs_read}
use cocos_os.Vfs.Nodes.{vfs_find-set_data}
use cocos_os.Vfs.Table.{
  read_row, contents, table, owned, lookup-table, set_data-set_data, table-set_null, table-refill,
}
use cocos_os.Vfs.Owned.{Placed, Owns, find-In}
use cocos_os.Vfs.Write.{bare, free_data-Owns, store_data-Owns}

-- The files of a state.
abbrev pub files : Vfs → FileTable
files s = table s.bytes s.nodes

-- The three ends of a write: no such file, no memory, or all of it written.
abbrev pub Written : Vfs → Text → List ℕ → ℕ → Vfs → Type 0
Written s name content result s' =
    ((lookup name (files s) ≡ none) × (result ≡ 0) × (s' ≡ s))
    ⊎ ((c : List ℕ) × (lookup name (files s) ≡ some c)
        × (((result ≡ 0) × (files s' ≡ put name [] (files s)))
            ⊎ ((result ≡ length content) × (files s' ≡ put name content (files s)))))

read_node :
    (bytes : Addr → List ℕ) (n : VfsNode) (buffer : List ℕ) (size : ℕ)
    → n.size ≡ length (contents bytes n)
    → (if n.bytes_at == null
        then (0, some buffer)
        else (let count = if ltb n.size size then n.size else size in
            (count, some (take count (bytes n.bytes_at) ++ drop count buffer))))
      ≡ read_row (some (contents bytes n)) buffer size
unfolding contents
read_node bytes n buffer size sized = elim (Bool-cases (n.bytes_at == null)) [
  | inl empty ↦ (let none_yet : min 0 size ≡ 0 = omega arith in rw (empty, none_yet))
  | inr full ↦
      (let all : n.size ≡ length (bytes n.bytes_at) = rw full at sized in
        let same : (if ltb n.size size then n.size else size)
            ≡ min (length (bytes n.bytes_at)) size =
          ground arith in
        rw full (ap (λ k. (k, some (take k (bytes n.bytes_at) ++ drop k buffer))) same))
]

pub vfs_read_files :
    (start : Addr) (bs : List Block) (s : Vfs) (name : Text) (buffer : List ℕ) (size : ℕ)
    → ((n : VfsNode) → In s.nodes n → Placed start bs s.bytes n)
    → vfs_read s name (some buffer) size ≡ read_row (lookup name (files s)) buffer size
unfolding vfs_read contents
vfs_read_files start bs s name buffer size placed = elim (Option-cases (vfs_find name s.nodes)) [
  | inl missing ↦ rw (lookup-table s.bytes name s.nodes, missing, vfs_read)
  | inr (n, found) ↦
      (let sized = (placed n (find-In name s.nodes n found)).sized in
        rw (lookup-table s.bytes name s.nodes, found, vfs_read)
          (read_node s.bytes n buffer size sized))
]

-- What is left to do once the old data are freed.
module _ (start end : Addr) (others : List Addr) (name : Text) (content : List ℕ) where
  Stored : Vfs → ℕ → Vfs → Type 0
  Stored s result s' =
      ((result ≡ 0) × (files s' ≡ put name [] (files s)))
      ⊎ ((result ≡ length content) × (files s' ≡ put name content (files s)))

  store_data-Stored :
      (s : Vfs) (h : Heap) (cs : List Block) (n : VfsNode)
      → vfs_find name s.nodes ≡ some n
      → Owns start end others (bare start end others name s h) cs
      → length content + 3 < 2 ^ 32
      → (p : Addr) × (h' : Heap) × (memory_alloc h (length content) ≡ some (p, h'))
        × (s' : Vfs) × (result : ℕ) × (store_data s name content (p, h') ≡ (result, s'))
        × ((ds : List Block) × Owns start end others s' ds)
        × Stored s result s'
  unfolding Stored
  store_data-Stored s h cs n found own small =
      let nodes = set_data name 0 null s.nodes in
      let (p, h', got, outcome) =
        Ledger-alloc start end (owned nodes ++ others) h cs (length content) own.ledger small in
      elim outcome [
        | inl refused ↦ (
          p,
          h',
          got,
          bare start end others name s h,
          0,
          ap₂ (λ q t. store_data s name content (q, t)) refused.0 refused.1,
          (cs, own),
          inl (refl, table-set_null s.bytes name 0 s.nodes),
        )
        | inr (ne, ds, new, ledger, added) ↦ (
          p,
          h',
          got,
          record s {
            nodes = set_data name (length content) p s.nodes;
            heap = h';
            bytes = update s.bytes p content;
          },
          length content,
          rw (==_of_ne ne),
          (
            ds,
            subst
                (λ l.
                  Owns start end others
                    (record s { nodes = l; heap = h'; bytes = update s.bytes p content }) ds)
                (set_data-set_data name (length content) 0 p null s.nodes)
                (store_data-Owns start end others name (bare start end others name s h) cs ds
                  (record n { size = 0; bytes_at = null }) content p h' own
                  (vfs_find-set_data name 0 null s.nodes n found) refl ne new ledger added),
          ),
          inr (
            refl,
            table-refill s.bytes name (length content) p content s.nodes ne
                (omega (arith, new, times-append p (owned nodes) others)),
          ),
        )
      ]

  pub vfs_write-Owns :
      (s : Vfs) (bs : List Block)
      → Owns start end others s bs
      → length content + 3 < 2 ^ 32
      → (result : ℕ) × (s' : Vfs) × (vfs_write s name content ≡ some (result, s'))
        × ((cs : List Block) × Owns start end others s' cs)
        × Written s name content result s'
  unfolding vfs_write Stored
  vfs_write-Owns s bs own small = elim (Option-cases (vfs_find name s.nodes)) [
    | inl missing ↦ (
      0,
      s,
      rw (missing, vfs_write),
      (bs, own),
      inl (lookup-table s.bytes name s.nodes ∙ rw missing, refl, refl),
    )
    | inr (n, found) ↦
        (let (h, freed, cs, own1) = free_data-Owns start end others name s bs n own found in
          let (p, h', got, s', result, stored, owned', outcome) =
            store_data-Stored s h cs n found own1 small in
          (
            result,
            s',
            rw (found, vfs_write, freed, got) (ap some stored),
            owned',
            inr (contents s.bytes n, lookup-table s.bytes name s.nodes ∙ rw found, outcome),
          ))
  ]
