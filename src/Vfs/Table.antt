-- ===== src/Vfs/Table.antt =====
-- The files of filesystem/vfs.c as a table of names and contents, without the addresses.
use cocos_os.Base.{
  FileTable, lookup, put, put-put, ℕ, ◌+◌, ◌≡◌, ◌≢◌, refl, sym, ap, ap₂, ◌∙◌, inl, inr, Option,
  none, some, List, [], ◌∷◌, ◌++◌, arith, ◌==◌, if◌then◌else◌, Bool-cases, ==_of_ne, ==_self,
  some_inj, update, length, min, take, drop, Text, str_eq,
}
use mathlib.Core.Option
use cocos_os.Memory.{Addr, null}
use cocos_os.Memory.Counts.{times}
use cocos_os.Vfs.{VfsNode, vfs_find, set_data}

-- As many bytes of a file as there are and as are asked for, before what is left of the buffer.
abbrev pub read_row : Option (List ℕ) → List ℕ → ℕ → ℕ × Option (List ℕ)
read_row none buffer size = (0, some buffer)
read_row (some c) buffer size =
    let count = min (length c) size in (count, some (take count c ++ drop count buffer))

unfoldable pub contents : (Addr → List ℕ) → VfsNode → List ℕ
contents bytes n = if n.bytes_at == null then [] else bytes n.bytes_at

unfoldable pub table : (Addr → List ℕ) → List VfsNode → FileTable
unfolding contents
table bytes [] = []
table bytes (n ∷ ns) = (n.name, contents bytes n) ∷ table bytes ns

-- The addresses of the nodes and of their data.
unfoldable pub owned : List VfsNode → List Addr
owned [] = []
owned (n ∷ ns) =
    let rest = owned ns in n.address ∷ (if n.bytes_at == null then rest else n.bytes_at ∷ rest)

pub lookup-table :
    (bytes : Addr → List ℕ) (name : Text) (ns : List VfsNode)
    → lookup name (table bytes ns) ≡ Option.map (contents bytes) (vfs_find name ns)
unfolding lookup table vfs_find
lookup-table bytes name [] = refl
lookup-table bytes name (n ∷ ns) = elim (Bool-cases (str_eq n.name name)) [
  | inl here ↦ rw here
  | inr other ↦ rw other (lookup-table bytes name ns)
]

-- Data that are set again are forgotten.
pub set_data-set_data :
    (name : Text) (k l : ℕ) (p q : Addr) (ns : List VfsNode)
    → set_data name k p (set_data name l q ns) ≡ set_data name k p ns
unfolding set_data
set_data-set_data name k l p q [] = refl
set_data-set_data name k l p q (n ∷ ns) = elim (Bool-cases (str_eq n.name name)) [
  | inl here ↦ rw (here, here)
  | inr other ↦ rw (other, other) (ap (λ r. n ∷ r) (set_data-set_data name k l p q ns))
]

pub set_data-same :
    (name : Text) (ns : List VfsNode) (n : VfsNode)
    → vfs_find name ns ≡ some n
    → set_data name n.size n.bytes_at ns ≡ ns
unfolding set_data vfs_find
set_data-same name [] n e = refl
set_data-same name (m ∷ ms) n e = elim (Bool-cases (str_eq m.name name)) [
  | inl here ↦ rw here (
      ap (λ (x : VfsNode). record m { size = x.size; bytes_at = x.bytes_at } ∷ ms)
        (sym (some_inj (rw here at e))))
  | inr other ↦ rw other (ap (λ r. m ∷ r) (set_data-same name ms n (rw other at e)))
]

-- How often a node owns the address with its data.
abbrev pub data_times : Addr → Addr → ℕ
data_times q b = if b == null then 0 else (if q == b then 1 else 0)

pub owned_cons :
    (q : Addr) (n : VfsNode) (ns : List VfsNode)
    → times q (owned (n ∷ ns))
      ≡ times q (n.address ∷ []) + data_times q n.bytes_at + times q (owned ns)
unfolding owned
owned_cons q n ns = ground arith

-- A node without data that gets some owns one address more.
pub owned-set_data :
    (name : Text) (size : ℕ) (p q : Addr) (ns : List VfsNode) (n : VfsNode)
    → vfs_find name ns ≡ some n
    → n.bytes_at ≡ null
    → p ≢ null
    → times q (owned (set_data name size p ns)) ≡ times q (p ∷ owned ns)
unfolding set_data vfs_find
owned-set_data name size p q [] n e empty ne = cc e
owned-set_data name size p q (m ∷ ms) n e empty ne = elim (Bool-cases (str_eq m.name name)) [
  | inl here ↦
      (let none_yet : m.bytes_at ≡ null =
          ap (λ (x : VfsNode). x.bytes_at) (some_inj (rw here at e)) ∙ empty in
        let now = owned_cons q (record m { size = size; bytes_at = p }) ms in
        let before = owned_cons q m ms in rw here (now ∙ ground (arith, before, none_yet, ne)))
  | inr other ↦
      (let rest = owned-set_data name size p q ms n (rw other at e) empty ne in
        let now = owned_cons q m (set_data name size p ms) in
        let before = owned_cons q m ms in rw other (ground (arith, now, before, rest)))
]

pub table-set_null :
    (bytes : Addr → List ℕ) (name : Text) (size : ℕ) (ns : List VfsNode)
    → table bytes (set_data name size null ns) ≡ put name [] (table bytes ns)
unfolding table put set_data
table-set_null bytes name size [] = refl
table-set_null bytes name size (n ∷ ns) = elim (Bool-cases (str_eq n.name name)) [
  | inl here ↦ rw here
  | inr other ↦
      rw other (ap (λ r. (n.name, contents bytes n) ∷ r) (table-set_null bytes name size ns))
]

-- What stands at an address that no node owns is in no file.
contents-update :
    (bytes : Addr → List ℕ) (p : Addr) (content : List ℕ) (n : VfsNode) (ns : List VfsNode)
    → times p (owned (n ∷ ns)) ≡ 0
    → contents (update bytes p content) n ≡ contents bytes n
unfolding contents
contents-update bytes p content n ns e = elim (Bool-cases (n.bytes_at == null)) [
  | inl empty ↦ rw empty
  | inr full ↦
      (let apart : n.bytes_at ≢ p = λ at. absurd (ground (arith, owned_cons p n ns)) in
        rw (full, ==_of_ne apart))
]

pub table-update :
    (bytes : Addr → List ℕ) (p : Addr) (content : List ℕ) (ns : List VfsNode)
    → times p (owned ns) ≡ 0
    → table (update bytes p content) ns ≡ table bytes ns
unfolding table
table-update bytes p content [] e = refl
table-update bytes p content (n ∷ ns) e =
    let rest : times p (owned ns) ≡ 0 = omega (arith, owned_cons p n ns) in
    ap₂ (λ c r. (n.name, c) ∷ r) (contents-update bytes p content n ns e)
      (table-update bytes p content ns rest)

-- What is written there is the content of the file that gets it.
pub table-set_data :
    (bytes : Addr → List ℕ) (name : Text) (size : ℕ) (p : Addr) (content : List ℕ)
    (ns : List VfsNode)
    → p ≢ null
    → times p (owned ns) ≡ 0
    → table (update bytes p content) (set_data name size p ns) ≡ put name content (table bytes ns)
unfolding table put set_data contents
table-set_data bytes name size p content [] ne e = refl
table-set_data bytes name size p content (n ∷ ns) ne e =
    let rest : times p (owned ns) ≡ 0 = omega (arith, owned_cons p n ns) in
    elim (Bool-cases (str_eq n.name name)) [
      | inl here ↦
          rw (here, ==_of_ne ne, ==_self p)
            (ap (λ r. (n.name, content) ∷ r) (table-update bytes p content ns rest))
      | inr other ↦ rw other (
          ap₂ (λ c r. (n.name, c) ∷ r) (contents-update bytes p content n ns e)
            (table-set_data bytes name size p content ns ne rest))
    ]

-- A file whose data were taken before it gets new ones.
pub table-refill :
    (bytes : Addr → List ℕ) (name : Text) (size : ℕ) (p : Addr) (content : List ℕ)
    (ns : List VfsNode)
    → p ≢ null
    → times p (owned (set_data name 0 null ns)) ≡ 0
    → table (update bytes p content) (set_data name size p ns) ≡ put name content (table bytes ns)
table-refill bytes name size p content ns ne new =
    ap (table (update bytes p content)) (sym (set_data-set_data name size 0 p null ns))
    ∙ table-set_data bytes name size p content (set_data name 0 null ns) ne new
    ∙ ap (put name content) (table-set_null bytes name 0 ns)
    ∙ put-put name content [] (table bytes ns)
