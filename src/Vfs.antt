-- ===== src/Vfs.antt =====
-- filesystem/vfs.c, vfs.h and ramfs.c: a linked list of nodes whose data stand in the kernel heap. A
-- name's array stands for the text that it holds, and `bytes` for what the payload at an address
-- holds. A call is `none` where the heap's own walk would not end.
pub mod Nodes
pub mod Table
pub mod Owned
pub mod Write
pub mod Refine
pub mod Reach
pub mod Contract
use cocos_os.Base.{
  ℕ, ◌+◌, ◌-◌, Bool, true, false, Option, none, some, List, [], ◌∷◌, ◌++◌, ltb, ◌==◌, if◌then◌else◌,
  update, length, take, drop, Text, str_eq,
}
use mathlib.Core.Option
use cocos_os.Memory.{Addr, null, Heap, memory_alloc, memory_free}

abbrev pub max_name : ℕ
max_name = 32

-- `vfs_node_t`; `address` is where the structure stands, and the list stands for `next`.
pub record VfsNode : Type 0 where
  pub address : Addr
  pub name : Text
  pub size : ℕ
  pub bytes_at : Addr

-- `sizeof(vfs_node_t)` on i386
abbrev pub vfs_node_bytes : ℕ
vfs_node_bytes = 44

-- The list that `root` points at, and the memory that it stands in.
pub record Vfs : Type 0 where
  pub nodes : List VfsNode
  pub heap : Heap
  pub bytes : Addr → List ℕ

unfoldable pub vfs_init : Vfs → Vfs
vfs_init s = record s { nodes = [] }

unfoldable pub vfs_find : Text → List VfsNode → Option VfsNode
unfolding str_eq
vfs_find name [] = none
vfs_find name (n ∷ ns) = if str_eq n.name name then some n else vfs_find name ns

unfoldable pub vfs_create : Vfs → Text → Option (ℕ × Vfs)
unfolding memory_alloc
vfs_create s name =
    Option.map
      (λ (p, h). if p == null then (0, record s { heap = h }) else (
        1,
        record s {
          nodes =
              record { address = p; name = take (max_name - 1) name; size = 0; bytes_at = null }
              ∷ s.nodes;
          heap = h;
        },
      ))
      (memory_alloc s.heap vfs_node_bytes)

-- The first node of that name gets new data; it is the node that `vfs_find` finds.
unfoldable pub set_data : Text → ℕ → Addr → List VfsNode → List VfsNode
unfolding str_eq
set_data name size p [] = []
set_data name size p (n ∷ ns) =
    if str_eq n.name name
    then record n { size = size; bytes_at = p } ∷ ns
    else n ∷ set_data name size p ns

-- `if (node->data) Memory_free(node->data)`
abbrev pub free_data : Heap → Addr → Option Heap
free_data h p = if p == null then some h else memory_free h p

-- The rest of `vfs_write`, given what `Memory_alloc` returned.
abbrev pub store_data : Vfs → Text → List ℕ → Addr × Heap → ℕ × Vfs
store_data s name content (p, h) =
    if p == null then (0, record s { nodes = set_data name 0 null s.nodes; heap = h }) else (
      length content,
      record s {
        nodes = set_data name (length content) p s.nodes;
        heap = h;
        bytes = update s.bytes p content;
      },
    )

-- `content` is the bytes `data[0 .. size)`.
unfoldable pub vfs_write : Vfs → Text → List ℕ → Option (ℕ × Vfs)
unfolding vfs_find set_data memory_alloc memory_free Option.bind
vfs_write s name content = elim (vfs_find name s.nodes) [
  | none ↦ some (0, s)
  | some n ↦
      Option.bind (free_data s.heap n.bytes_at)
        (λ h. Option.map (store_data s name content) (memory_alloc h (length content)))
]

-- The result and what the buffer holds afterwards; `none` is a NULL buffer. The bytes go into the buffer and, where it is
-- shorter than they are, on into what stands after it: the list is then as long as the bytes.
unfoldable pub vfs_read : Vfs → Text → Option (List ℕ) → ℕ → ℕ × Option (List ℕ)
unfolding vfs_find
vfs_read s name none size = (0, none)
vfs_read s name (some buffer) size = elim (vfs_find name s.nodes) [
  | none ↦ (0, some buffer)
  | some n ↦
      if n.bytes_at == null
      then (0, some buffer)
      else (let count = if ltb n.size size then n.size else size in
          (count, some (take count (s.bytes n.bytes_at) ++ drop count buffer)))
]

-- `"welcome.txt"`
abbrev pub welcome_name : Text
welcome_name = b'w' ∷ b'e' ∷ b'l' ∷ b'c' ∷ b'o' ∷ b'm' ∷ b'e' ∷ b'.' ∷ b't' ∷ b'x' ∷ b't' ∷ []

-- The file's bytes, the closing NUL among them, are an argument.
unfoldable pub ramfs_init : Vfs → List ℕ → Option Vfs
unfolding vfs_init vfs_create vfs_write Option.bind
ramfs_init s msg =
    Option.bind (vfs_create (vfs_init s) welcome_name)
      (λ (made, s1). Option.map (λ (written, s2). s2) (vfs_write s1 welcome_name msg))
