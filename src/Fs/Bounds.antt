-- ===== src/Fs/Bounds.antt =====
-- The arrays of filesystem/fs.c are never overrun.
use cocos_os.Base.{
  ℕ, ◌<◌, ◌≤◌, inl, inr, Option, none, some, arith, leb, ◌==◌, Bool-cases, update, length, Text,
}
use cocos_os.Fs.{
  max_files, max_filename, max_file_size, File, FileSystem, fs_init, fs_create, write_at, fs_write,
}

-- The texts fit their arrays with the closing NUL.
abbrev pub FileFits : File → Type 0
FileFits f = (length f.name < max_filename) × (length f.content < max_file_size)

abbrev pub InBounds : FileSystem → Type 0
InBounds s = (s.file_count ≤ max_files) × ((i : ℕ) → FileFits (s.files i))

-- A call, with its arguments.
pub data Step : FileSystem → FileSystem → Type 0 where
  init : (s : FileSystem) → Step s (fs_init s)
  create : (s : FileSystem) (name : Option Text) → Step s (fs_create s name).1
  write : (s : FileSystem) (name content : Option Text) → Step s (fs_write s name content).1

pub data Reach (s : FileSystem) : FileSystem → Type 0 where
  here : Reach s s
  next : {t u : FileSystem} → Reach s t → Step t u → Reach s u

fits_update :
    (files : ℕ → File) (k i : ℕ) (f : File)
    → ((j : ℕ) → FileFits (files j))
    → FileFits f
    → FileFits (update files k f i)
fits_update files k i f h g = elim (Bool-cases (i == k)) [
  | inl at ↦ rw at g
  | inr other ↦ rw other (h i)
]

fs_create-InBounds :
    (s : FileSystem) (name : Option Text) → InBounds s → InBounds (fs_create s name).1
unfolding fs_create
fs_create-InBounds s none h = h
fs_create-InBounds s (some name) h = elim (Bool-cases (leb max_filename (length name))) [
  | inl long ↦ rw long h
  | inr short ↦ elim (Bool-cases (leb max_files s.file_count)) [
    | inl full ↦ rw (short, full) h
    | inr room ↦
        rw (short, room)
          (
            ground arith,
            λ i. fits_update s.files s.file_count i _ h.1 (ground arith, (h.1 s.file_count).1),
          )
  ]
]

write_at-InBounds :
    (s : FileSystem) (content : Text) (o : Option ℕ)
    → length content < max_file_size
    → InBounds s
    → InBounds (write_at s content o).1
unfolding write_at
write_at-InBounds s content none short h = h
write_at-InBounds s content (some k) short h =
    (h.0, λ i. fits_update s.files k i _ h.1 ((h.1 k).0, short))

fs_write-InBounds :
    (s : FileSystem) (name content : Option Text)
    → InBounds s
    → InBounds (fs_write s name content).1
unfolding fs_write
fs_write-InBounds s none content h = h
fs_write-InBounds s (some name) none h = h
fs_write-InBounds s (some name) (some content) h =
    elim (Bool-cases (leb max_file_size (length content))) [
      | inl long ↦ rw long h
      | inr short ↦ rw short (write_at-InBounds s content _ (ground arith) h)
    ]

Step-InBounds : {s t : FileSystem} → Step s t → InBounds s → InBounds t
unfolding fs_init
Step-InBounds (init s) h = (omega arith, h.1)
Step-InBounds (create s name) h = fs_create-InBounds s name h
Step-InBounds (write s name content) h = fs_write-InBounds s name content h

-- From a state within bounds, such as the zeroed one, any calls keep the count of files at most 32 and
-- every name and content short enough for its array of 32 or 1024 bytes.
pub Reach-InBounds : {s t : FileSystem} → InBounds s → Reach s t → InBounds t
Reach-InBounds h here = h
Reach-InBounds h (next r st) = Step-InBounds st (Reach-InBounds h r)
