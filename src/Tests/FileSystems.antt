-- ===== src/Tests/FileSystems.antt =====
-- filesystem/fs.c and filesystem/vfs.c at small inputs.
use cocos_os.Base.{
  inl, inr, Bool-cases, ◌≡◌, ◌≢◌, refl, false, none, some, List, [], ◌∷◌, arith, ◌==◌,
  if◌then◌else◌, replicate, Text,
}
use cocos_os.Memory.{null, header, memory_init}
use cocos_os.Fs.{FileSystem, done, fs_create, fs_write, fs_read}
use cocos_os.Fs.Bounds.{InBounds, here, next, create, write, Reach-InBounds}
use cocos_os.Fs.Refine.{
  Call, read, code, content, answers, answers_table, files_of, answers-answers_table,
}
use cocos_os.Fs.Files.{fs_read-fs_write, fs_read-fs_create}
use cocos_os.Vfs.{Vfs, vfs_find, vfs_create, vfs_write, vfs_read}
use cocos_os.Vfs.Nodes.{vfs_read-vfs_write, vfs_find-vfs_create_long}

-- `"a"` and `"b"` are files; the slot after them still holds a text.
abbrev files : FileSystem
files = record {
  files = λ i.
      if i == 0
      then record { name = b'a' ∷ []; content = b'x' ∷ []; size = 1 }
      else if i == 1
      then record { name = b'b' ∷ []; content = b'y' ∷ []; size = 1 }
      else record { name = []; content = b'o' ∷ b'l' ∷ b'd' ∷ []; size = 3 };
  file_count = 2;
}

write_b : (fs_write files (some (b'b' ∷ [])) (some (b'n' ∷ b'e' ∷ b'w' ∷ []))).0 ≡ done
unfolding fs_write
write_b = refl

fs_read-fs_write_run :
    (fs_read
        (fs_write files (some (b'b' ∷ [])) (some (b'n' ∷ b'e' ∷ b'w' ∷ []))).1
        (some (b'b' ∷ []))
      ≡ some (b'n' ∷ b'e' ∷ b'w' ∷ []))
    × ((other : Text)
        → (b'b' ∷ []) ≢ other
        → fs_read
            (fs_write files (some (b'b' ∷ [])) (some (b'n' ∷ b'e' ∷ b'w' ∷ []))).1
            (some other)
          ≡ fs_read files (some other))
fs_read-fs_write_run = fs_read-fs_write files (b'b' ∷ []) (b'n' ∷ b'e' ∷ b'w' ∷ []) write_b

-- No files yet.
abbrev no_files : FileSystem
no_files = record { files = λ _. record { name = []; content = []; size = 0 }; file_count = 0 }

abbrev calls : List Call
calls =
    Call.create (some (b'a' ∷ []))
    ∷ Call.create (some (b'b' ∷ []))
    ∷ Call.write (some (b'b' ∷ [])) (some (b'x' ∷ []))
    ∷ read (some (b'a' ∷ []))
    ∷ read (some (b'b' ∷ []))
    ∷ read none
    ∷ []

answers-answers_table_example : answers calls no_files ≡ answers_table calls (files_of no_files)
answers-answers_table_example = answers-answers_table calls no_files (λ i low. refl)

-- The answers that both give.
answers_run :
    answers calls no_files
    ≡ code done
      ∷ code done
      ∷ code done
      ∷ content (some [])
      ∷ content (some (b'x' ∷ []))
      ∷ content none
      ∷ []
unfolding answers
answers_run = refl

create_c : (fs_create files (some (b'c' ∷ []))).0 ≡ done
unfolding fs_create
create_c = refl

no_c : fs_read files (some (b'c' ∷ [])) ≡ none
unfolding fs_read
no_c = refl

fs_read-fs_create_run :
    fs_read (fs_create files (some (b'c' ∷ []))).1 (some (b'c' ∷ []))
    ≡ some (b'o' ∷ b'l' ∷ b'd' ∷ [])
fs_read-fs_create_run = fs_read-fs_create files (b'c' ∷ []) create_c no_c

files-InBounds : InBounds files
files-InBounds = (
  omega arith,
  λ i. elim (Bool-cases (i == 0)) [
    | inl first ↦ rw first (omega arith, omega arith)
    | inr later ↦ elim (Bool-cases (i == 1)) [
      | inl second ↦ rw (later, second) (omega arith, omega arith)
      | inr last ↦ rw (later, last) (omega arith, omega arith)
    ]
  ],
)

Reach-InBounds_example :
    InBounds
      (fs_write (fs_create files (some (b'c' ∷ []))).1 (some (b'c' ∷ [])) (some (b'z' ∷ []))).1
Reach-InBounds_example =
    Reach-InBounds {s = files}
      {t = (fs_write (fs_create files (some (b'c' ∷ []))).1 (some (b'c' ∷ []))
        (some (b'z' ∷ []))).1}
      files-InBounds
      (next (next here (create files (some (b'c' ∷ []))))
        (write (fs_create files (some (b'c' ∷ []))).1 (some (b'c' ∷ [])) (some (b'z' ∷ []))))

-- A node `"f"` without data, in a heap of 256 bytes at 4096.
abbrev nodes : Vfs
nodes = record {
  nodes = record { address = 4108; name = b'f' ∷ []; size = 0; bytes_at = null } ∷ [];
  heap = memory_init (λ _. header 0 false 0) 4096 256;
  bytes = λ _. [];
}

abbrev saved : Vfs
saved = elim (vfs_write nodes (b'f' ∷ []) (1 ∷ 2 ∷ 3 ∷ [])) [ none ↦ nodes | some (n, s) ↦ s ]

write_f : vfs_write nodes (b'f' ∷ []) (1 ∷ 2 ∷ 3 ∷ []) ≡ some (3, saved)
unfolding vfs_write memory_init
write_f = refl

vfs_read-vfs_write_run :
    vfs_read saved (b'f' ∷ []) (some (9 ∷ 9 ∷ 9 ∷ 9 ∷ [])) 4 ≡ (3, some (1 ∷ 2 ∷ 3 ∷ 9 ∷ []))
vfs_read-vfs_write_run =
    vfs_read-vfs_write nodes (b'f' ∷ []) (1 ∷ 2 ∷ 3 ∷ []) (9 ∷ 9 ∷ 9 ∷ 9 ∷ []) 4 2 saved write_f

abbrev long_name : Text
long_name = replicate 32 b'n'

abbrev with_long : Vfs
with_long = elim (vfs_create nodes long_name) [ none ↦ nodes | some (n, s) ↦ s ]

create_long : vfs_create nodes long_name ≡ some (1, with_long)
unfolding vfs_create memory_init
create_long = refl

no_long : vfs_find long_name nodes.nodes ≡ none
unfolding vfs_find
no_long = refl

vfs_find-vfs_create_long_run : vfs_find long_name with_long.nodes ≡ none
vfs_find-vfs_create_long_run =
    vfs_find-vfs_create_long nodes long_name 1 with_long create_long (omega arith) no_long
