-- ===== src/Vfs/Nodes.antt =====
-- Creating, writing and reading nodes of filesystem/vfs.c.
use cocos_os.Base.{
  ℕ, suc, ◌-◌, ◌<◌, ◌≤◌, ◌≡◌, ◌≢◌, refl, sym, ap, ◌∙◌, inl, inr, true, false, none, some, List, [],
  ◌∷◌, ◌++◌, arith, ltb, ◌==◌, if◌then◌else◌, Bool-cases, Option-cases, ==_of_ne, some_inj, update,
  update_self, length, take, drop, length-take, Text, str_eq, str_eq→eq,
}
use cocos_os.Memory.{Addr, null, Heap, memory_alloc}
use cocos_os.Vfs.{
  max_name, vfs_node_bytes, VfsNode, Vfs, vfs_find, vfs_create, set_data, free_data, store_data,
  vfs_write, vfs_read,
}

-- The node that is found after new data were set is the one found before, with those data.
pub vfs_find-set_data :
    (name : Text) (size : ℕ) (p : Addr) (ns : List VfsNode) (n : VfsNode)
    → vfs_find name ns ≡ some n
    → vfs_find name (set_data name size p ns) ≡ some (record n { size = size; bytes_at = p })
unfolding vfs_find set_data
vfs_find-set_data name size p [] n e = cc e
vfs_find-set_data name size p (m ∷ ms) n e = elim (Bool-cases (str_eq m.name name)) [
  | inl here ↦
      rw (here, here)
        (ap (λ (x : VfsNode). some (record x { size = size; bytes_at = p }))
          (some_inj (rw here at e)))
  | inr other ↦ rw (other, other) (vfs_find-set_data name size p ms n (rw other at e))
]

-- Searches for other names find what they found.
vfs_find-set_data_ne :
    (name other : Text) (size : ℕ) (p : Addr) (ns : List VfsNode)
    → name ≢ other
    → vfs_find other (set_data name size p ns) ≡ vfs_find other ns
unfolding vfs_find set_data
vfs_find-set_data_ne name other size p [] ne = refl
vfs_find-set_data_ne name other size p (m ∷ ms) ne = elim (Bool-cases (str_eq m.name name)) [
  | inl here ↦
      (let apart : str_eq m.name other ≡ false = not_both m.name name other here ne in
        rw (here, apart))
  | inr no_match ↦ rw no_match (
      ap (λ r. if str_eq m.name other then some m else r)
        (vfs_find-set_data_ne name other size p ms ne))
]
  where
    not_both : (x y z : Text) → str_eq x y ≡ true → y ≢ z → str_eq x z ≡ false
    not_both x y z h ne = elim (Bool-cases (str_eq x z)) [
      | inl both ↦ absurd (ne (sym (str_eq→eq x y h) ∙ str_eq→eq x z both))
      | inr apart ↦ apart
    ]

-- What a successful `vfs_write` has done: memory was found, and the node points at it.
vfs_write_done :
    (s : Vfs) (name : Text) (content : List ℕ) (k : ℕ) (s' : Vfs)
    → vfs_write s name content ≡ some (suc k, s')
    → (n : VfsNode) × (p : Addr) × (h : Heap) × (vfs_find name s.nodes ≡ some n)
      × (p ≢ null)
      × ((suc k, s') ≡ store_data s name content (p, h))
unfolding vfs_write
vfs_write_done s name content k s' e = elim (Option-cases (vfs_find name s.nodes)) [
  | inl missing ↦ cc (some_inj (rw (missing, vfs_write) at e))
  | inr (n, found) ↦ elim (Option-cases (free_data s.heap n.bytes_at)) [
    | inl stuck ↦ cc (rw (found, vfs_write, stuck) at e)
    | inr (h, freed) ↦ elim (Option-cases (memory_alloc h (length content))) [
      | inl lost ↦ cc (rw (found, vfs_write, freed, lost) at e)
      | inr ((p, h'), given) ↦
          (let done = some_inj (rw (found, vfs_write, freed, given) at e) in
            (n, p, h', found, given_ne p h' done, sym done))
    ]
  ]
]
  where
    given_ne : (p : Addr) (h : Heap) → store_data s name content (p, h) ≡ (suc k, s') → p ≢ null
    given_ne p h done z =
        cc (ap (λ q. (store_data s name content (q, h)).0) (sym z) ∙ ap (λ (r : ℕ × Vfs). r.0) done)

-- What reading a node gives.
vfs_read_found :
    (s : Vfs) (name : Text) (buffer : List ℕ) (size : ℕ) (n : VfsNode)
    → vfs_find name s.nodes ≡ some n
    → n.bytes_at ≢ null
    → vfs_read s name (some buffer) size ≡ (
        let count = if ltb n.size size then n.size else size in
        (count, some (take count (s.bytes n.bytes_at) ++ drop count buffer)))
unfolding vfs_read
vfs_read_found s name buffer size n found ne = rw (found, vfs_read, ==_of_ne ne)

-- What a write has left, once memory was found for it.
stored :
    (s : Vfs) (name : Text) (content : List ℕ) (p : Addr) (h : Heap)
    → p ≢ null
    → store_data s name content (p, h) ≡ (
      length content,
      record s {
        nodes = set_data name (length content) p s.nodes;
        heap = h;
        bytes = update s.bytes p content;
      },
    )
stored s name content p h ne = rw (==_of_ne ne)

-- What a `vfs_write` that returned more than 0 wrote reads back: `vfs_read` copies as many of
-- those bytes as there are or as are asked for, whichever is less, leaves the rest of the buffer,
-- and returns their number.
pub vfs_read-vfs_write :
    (s : Vfs) (name : Text) (content buffer : List ℕ) (size k : ℕ) (s' : Vfs)
    → vfs_write s name content ≡ some (suc k, s')
    → vfs_read s' name (some buffer) size ≡ (
        let count = if ltb (length content) size then length content else size in
        (count, some (take count content ++ drop count buffer)))
vfs_read-vfs_write s name content buffer size k s' e =
    let (n, p, h, found, ne, done) = vfs_write_done s name content k s' e in
    let state = ap (λ (r : ℕ × Vfs). r.1) (done ∙ stored s name content p h ne) in
    ap (λ t. vfs_read t name (some buffer) size) state
    ∙ vfs_read_found
        (record s {
          nodes = set_data name (length content) p s.nodes;
          heap = h;
          bytes = update s.bytes p content;
        })
        name buffer size (record n { size = length content; bytes_at = p })
        (vfs_find-set_data name (length content) p s.nodes n found) ne
    ∙ ap
        (λ bs.
          let count = if ltb (length content) size then length content else size in
          (count, some (take count bs ++ drop count buffer)))
        (update_self s.bytes p content)

take_ne : (n : ℕ) (t : Text) → n < length t → take n t ≢ t
take_ne n t h e = absurd (omega (arith, ap length e, length-take n t))

-- A file that `vfs_create` makes under a new name of 32 bytes or more is not found by that name.
pub vfs_find-vfs_create_long :
    (s : Vfs) (name : Text) (made : ℕ) (s' : Vfs)
    → vfs_create s name ≡ some (made, s')
    → 32 ≤ length name
    → vfs_find name s.nodes ≡ none
    → vfs_find name s'.nodes ≡ none
unfolding vfs_create vfs_find
vfs_find-vfs_create_long s name made s' e long missing =
    elim (Option-cases (memory_alloc s.heap vfs_node_bytes)) [
      | inl lost ↦ cc (rw (lost, vfs_create) at e)
      | inr ((p, h), given) ↦ elim (Bool-cases (p == null)) [
        | inl null_p ↦
            ap (λ (t : Vfs). vfs_find name t.nodes)
              (ap (λ (r : ℕ × Vfs). r.1) (sym (some_inj (rw (given, vfs_create, null_p) at e))))
            ∙ missing
        | inr some_p ↦
            ap (λ (t : Vfs). vfs_find name t.nodes)
              (ap (λ (r : ℕ × Vfs). r.1) (sym (some_inj (rw (given, vfs_create, some_p) at e))))
            ∙ rw cut missing
      ]
    ]
  where
    cut : str_eq (take (max_name - 1) name) name ≡ false
    cut = elim (Bool-cases (str_eq (take (max_name - 1) name) name)) [
      | inl same ↦ absurd (take_ne 31 name (omega arith) (str_eq→eq _ name same))
      | inr apart ↦ apart
    ]
