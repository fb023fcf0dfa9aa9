-- ===== src/Tests/VirtualFiles.antt =====
-- filesystem/vfs.c beside another holder of the heap, at small inputs.
use cocos_os.Base.{
  lookup, In, ℕ, ◌≡◌, ◌⊎◌, refl, false, none, some, List, [], ◌∷◌, arith, update, Text,
}
use cocos_os.Memory.{Addr, Heap, header, memory_init, memory_alloc}
use cocos_os.Memory.Blocks.{Block}
use cocos_os.Vfs.{Vfs, vfs_create, vfs_write, vfs_read}
use cocos_os.Vfs.Table.{table, contents, read_row}
use cocos_os.Vfs.Owned.{Owns}
use cocos_os.Vfs.Refine.{files, Written}
use cocos_os.Vfs.Reach.{Reach, here, create, write, obtain}
use cocos_os.Vfs.Contract.{empty, Reach-Owns, Reach-files}

abbrev name_a : Text
name_a = b'a' ∷ []

abbrev name_b : Text
name_b = b'b' ∷ []

abbrev no_bytes : Addr → List ℕ
no_bytes _ = []

-- No nodes in a heap of 256 bytes.
abbrev s0 : Vfs
s0 = empty (λ _. header 0 false 0) 4096 256 no_bytes

abbrev s1 : Vfs
s1 = elim (vfs_create s0 name_a) [ none ↦ s0 | some (r, s) ↦ s ]

abbrev h2 : Heap
h2 = elim (memory_alloc s1.heap 8) [ none ↦ s1.heap | some (p, h) ↦ h ]

abbrev s2 : Vfs
s2 = record s1 { heap = h2 }

abbrev s3 : Vfs
s3 = elim (vfs_create s2 name_b) [ none ↦ s2 | some (r, s) ↦ s ]

abbrev s4 : Vfs
s4 = elim (vfs_write s3 name_a (1 ∷ 2 ∷ 3 ∷ [])) [ none ↦ s3 | some (r, s) ↦ s ]

run1 : vfs_create s0 name_a ≡ some (1, s1)
unfolding vfs_create memory_init
run1 = refl

run2 : memory_alloc s1.heap 8 ≡ some (4164, h2)
unfolding vfs_create memory_alloc memory_init
run2 = refl

run3 : vfs_create s2 name_b ≡ some (1, s3)
unfolding vfs_create memory_alloc memory_init
run3 = refl

run4 : vfs_write s3 name_a (1 ∷ 2 ∷ 3 ∷ []) ≡ some (3, s4)
unfolding vfs_create vfs_write memory_alloc memory_init
run4 = refl

reached : Reach s0 (4164 ∷ []) s4
reached =
    write name_a (1 ∷ 2 ∷ 3 ∷ []) 3 s4
      (create name_b 1 s3
        (obtain 8 4164 h2 (create name_a 1 s1 here run1) (omega arith) run2 (omega arith)) run3)
      (omega arith) run4

Reach-Owns_example :
    ((bs : List Block) × Owns 4096 4352 (4164 ∷ []) s4 bs)
    × ((p : Addr) (content : List ℕ)
        → In (4164 ∷ []) p
        → files (record s4 { bytes = update s4.bytes p content }) ≡ files s4)
Reach-Owns_example =
    Reach-Owns (λ _. header 0 false 0) 4096 256 no_bytes (4164 ∷ []) s4 (omega arith) (omega arith)
      (omega arith) reached

Reach-files_example :
    (vfs_read s4 name_a (some (9 ∷ 9 ∷ [])) 2 ≡ read_row (lookup name_a (files s4)) (9 ∷ 9 ∷ []) 2)
    × ((vfs_create s4 name_a ≡ some (0, s4))
        ⊎ ((s' : Vfs) × (vfs_create s4 name_a ≡ some (1, s'))
            × (files s' ≡ (name_a, []) ∷ files s4)))
    × ((result : ℕ) × (s' : Vfs) × (vfs_write s4 name_a (5 ∷ []) ≡ some (result, s'))
        × Written s4 name_a (5 ∷ []) result s')
Reach-files_example =
    Reach-files (λ _. header 0 false 0) 4096 256 no_bytes (4164 ∷ []) s4 name_a (5 ∷ [])
      (9 ∷ 9 ∷ []) 2 (omega arith) (omega arith) (omega arith) reached (omega arith)

-- The file holds what was written, the other one nothing.
files_run : files s4 ≡ (name_b, []) ∷ (name_a, 1 ∷ 2 ∷ 3 ∷ []) ∷ []
unfolding table contents vfs_create vfs_write memory_alloc memory_init
files_run = refl
