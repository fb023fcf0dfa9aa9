-- ===== src/Fs.antt =====
-- filesystem/fs.c and fs.h: a table of 32 files. A `char` array stands for the text that it holds;
-- an argument that may be NULL is an option.
pub mod Files
pub mod Bounds
pub mod Rows
pub mod Refine
use cocos_os.Base.{
  ℕ, zero, suc, ◌+◌, Option, none, some, leb, ltb, ◌==◌, if◌then◌else◌, update, length, Text,
  str_eq,
}

abbrev pub max_files : ℕ
max_files = 32

abbrev pub max_filename : ℕ
max_filename = 32

abbrev pub max_file_size : ℕ
max_file_size = 1024

-- The results 0 and -1.
pub data Code : Type 0 where
  done failed : Code

-- `file_t`
pub record File : Type 0 where
  pub name : Text
  pub content : Text
  pub size : ℕ

pub record FileSystem : Type 0 where
  pub files : ℕ → File
  pub file_count : ℕ

unfoldable pub fs_init : FileSystem → FileSystem
fs_init s = record s { file_count = 0 }

-- The content of the slot stays as it was.
unfoldable pub fs_create : FileSystem → Option Text → Code × FileSystem
fs_create s none = (failed, s)
fs_create s (some name) =
    if leb max_filename (length name)
    then (failed, s)
    else if leb max_files s.file_count
    then (failed, s)
    else (let slot = s.files s.file_count in
        (
          done,
          record s {
            files = update s.files s.file_count (record slot { name = name; size = 0 });
            file_count = s.file_count + 1;
          },
        ))

-- The loops of `fs_write` and `fs_read`: the first file of that name, with `left` rounds to go.
unfoldable pub find_file : (ℕ → File) → Text → (left i : ℕ) → Option ℕ
unfolding str_eq
find_file files name zero i = none
find_file files name (suc left) i =
    let rest = find_file files name left (i + 1) in
    if str_eq (files i).name name then some i else rest

write_at : FileSystem → Text → Option ℕ → Code × FileSystem
write_at s content none = (failed, s)
write_at s content (some i) =
    let file = s.files i in
    (
      done,
      record s {
        files = update s.files i (record file { content = content; size = length content });
      },
    )

unfoldable pub fs_write : FileSystem → Option Text → Option Text → Code × FileSystem
unfolding find_file write_at
fs_write s none content = (failed, s)
fs_write s (some name) none = (failed, s)
fs_write s (some name) (some content) =
    if leb max_file_size (length content)
    then (failed, s)
    else write_at s content (find_file s.files name s.file_count 0)

unfoldable pub fs_read : FileSystem → Option Text → Option Text
unfolding find_file
fs_read s none = none
fs_read s (some name) = elim (find_file s.files name s.file_count 0) [
  | none ↦ none
  | some i ↦ some (s.files i).content
]
