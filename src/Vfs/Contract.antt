-- ===== src/Vfs/Contract.antt =====
-- What callers of filesystem/vfs.c may rely on, whoever else uses the heap.
use cocos_os.Base.{
  lookup, In, ℕ, ◌+◌, ◌-◌, ◌^◌, ◌<◌, ◌≤◌, ◌≡◌, ◌⊎◌, inl, inr, false, some, List, [], ◌∷◌, arith,
  update, length, take, Text,
}
use cocos_os.Memory.{Addr, header_size, Cells, memory_init}
use cocos_os.Memory.Blocks.{Block, block}
use cocos_os.Memory.Lifecycle.{start-Kept}
use cocos_os.Vfs.{Vfs, max_name, vfs_create, vfs_write, vfs_read}
use cocos_os.Vfs.Table.{read_row, owned, table-update}
use cocos_os.Vfs.Owned.{Owns, vfs_create-Owns}
use cocos_os.Vfs.Refine.{files, Written, vfs_read_files, vfs_write-Owns}
use cocos_os.Vfs.Reach.{Reach, Owned, unowned, Reach-Owned_from}

-- No nodes yet, and a heap as `Memory_init` leaves it.
abbrev pub empty : Cells → Addr → ℕ → (Addr → List ℕ) → Vfs
empty m start size bytes = record { nodes = []; heap = memory_init m start size; bytes = bytes }

empty-Owned :
    (m : Cells) (start size : ℕ) (bytes : Addr → List ℕ)
    → 0 < start
    → header_size < size
    → start + size + 4 ≤ 2 ^ 32
    → Owned start (start + size) [] (empty m start size bytes)
unfolding Owned owned
empty-Owned m start size bytes positive room bounded = (
  block (size - header_size) false ∷ [],
  record {
    ledger = record {
      kept = start-Kept m start size positive room bounded;
      once = λ q. omega arith;
    };
    placed = λ n i. absurd i;
  },
)

-- After any calls of `vfs_init`, `vfs_create` and `vfs_write`, of contents whose length can be rounded up, from an
-- empty list and a `Memory_init` of an area that is longer than a header, does not start at 0 and ends
-- four bytes or more before 2 ^ 32, and any calls of others that take and free payloads and write to what
-- they hold in between: the heap is well formed; its payloads in use are the nodes', their data's and
-- the others', all different; a node's payload has room for the structure and that of its data for
-- all of them, whose number is the node's size; and what others write to what they hold changes no file.
pub Reach-Owns :
    (m : Cells) (start size : ℕ) (bytes : Addr → List ℕ) (others : List Addr) (s : Vfs)
    → 0 < start
    → header_size < size
    → start + size + 4 ≤ 2 ^ 32
    → Reach (empty m start size bytes) others s
    → ((bs : List Block) × Owns start (start + size) others s bs)
      × ((p : Addr) (content : List ℕ)
          → In others p
          → files (record s { bytes = update s.bytes p content }) ≡ files s)
unfolding Owned
Reach-Owns m start size bytes others s positive room bounded r =
    let (bs, own) =
      Reach-Owned_from start (start + size) (empty m start size bytes)
        (empty-Owned m start size bytes positive room bounded) others s r in
    (
      (bs, own),
      λ p content i.
          table-update s.bytes p content s.nodes (unowned start (start + size) others s bs p own i),
    )

-- In such a state the calls return and do to the table of files what they should: `vfs_read` copies from
-- the first file of that name; `vfs_create` puts an empty file in front, its name cut to 31 bytes,
-- or returns 0 and changes nothing; and `vfs_write` returns 0 and changes nothing where there is no such
-- file, and else gives the first file of that name all of the content and no other file anything else, or
-- returns 0 and leaves that file empty.
pub Reach-files :
    (m : Cells) (start size : ℕ) (bytes : Addr → List ℕ) (others : List Addr) (s : Vfs)
    (name : Text) (content buffer : List ℕ) (count : ℕ)
    → 0 < start
    → header_size < size
    → start + size + 4 ≤ 2 ^ 32
    → Reach (empty m start size bytes) others s
    → length content + 3 < 2 ^ 32
    → (vfs_read s name (some buffer) count ≡ read_row (lookup name (files s)) buffer count)
      × ((vfs_create s name ≡ some (0, s))
          ⊎ ((s' : Vfs) × (vfs_create s name ≡ some (1, s'))
              × (files s' ≡ (take (max_name - 1) name, []) ∷ files s)))
      × ((result : ℕ) × (s' : Vfs) × (vfs_write s name content ≡ some (result, s'))
          × Written s name content result s')
Reach-files m start size bytes others s name content buffer count positive room bounded r small =
    let (bs, own) = (Reach-Owns m start size bytes others s positive room bounded r).0 in
    let (result, s', run, now, ends) =
      vfs_write-Owns start (start + size) others name content s bs own small in
    (
      vfs_read_files start bs s name buffer count own.placed,
      elim (vfs_create-Owns start (start + size) others s bs name own) [
        | inl refused ↦ inl refused
        | inr (t, made, owned', row) ↦ inr (t, made, row)
      ],
      (result, s', run, ends),
    )
