-- ===== src/Fs/Refine.antt =====
-- The calls of filesystem/fs.c answer as those of a table of names and contents do.
use cocos_os.Base.{
  FileTable, lookup, put, ℕ, ◌+◌, ◌≤◌, ◌≡◌, ◌≢◌, refl, ap, ap₂, ◌∙◌, inl, inr, Option, none, some,
  List, [], ◌∷◌, ◌++◌, arith, leb, if◌then◌else◌, Bool-cases, Option-cases, ==_of_ne, update,
  update_self, update-ne, length, Text,
}
use cocos_os.Fs.{
  max_files, max_filename, max_file_size, Code, done, failed, File, FileSystem, fs_create,
  find_file, write_at, fs_write, fs_read,
}
use cocos_os.Fs.Rows.{
  row, rows, lookup-rows, length-rows, find_file_lt, rows_frame, rows_end, rows-put,
}

-- A call with its arguments, of which some may be NULL, and an answer.
pub data Call : Type 0 where
  create : Option Text → Call
  write : (name content : Option Text) → Call
  read : Option Text → Call

pub data Answer : Type 0 where
  code : Code → Answer
  content : Option Text → Answer

unfoldable pub answer : Call → FileSystem → Answer × FileSystem
unfolding fs_create fs_write fs_read
answer (create name) s = let (r, t) = fs_create s name in (code r, t)
answer (write name text) s = let (r, t) = fs_write s name text in (code r, t)
answer (read name) s = (content (fs_read s name), s)

-- The same on a table: a new file stands at the end and is empty; the first of a name is written and read.
unfoldable pub create_row : Option Text → FileTable → Code × FileTable
create_row none t = (failed, t)
create_row (some name) t =
    if leb max_filename (length name)
    then (failed, t)
    else if leb max_files (length t)
    then (failed, t)
    else (done, t ++ ((name, []) ∷ []))

unfoldable pub write_row : Option Text → Option Text → FileTable → Code × FileTable
unfolding lookup put
write_row none text t = (failed, t)
write_row (some name) none t = (failed, t)
write_row (some name) (some text) t =
    if leb max_file_size (length text)
    then (failed, t)
    else elim (lookup name t) [ none ↦ (failed, t) | some old ↦ (done, put name text t) ]

unfoldable pub answer_table : Call → FileTable → Answer × FileTable
unfolding create_row write_row lookup
answer_table (create name) t = let (r, u) = create_row name t in (code r, u)
answer_table (write name text) t = let (r, u) = write_row name text t in (code r, u)
answer_table (read none) t = (content none, t)
answer_table (read (some name)) t = (content (lookup name t), t)

-- The answers to calls one after another, by the files and by a table.
unfoldable pub answers : List Call → FileSystem → List Answer
unfolding answer
answers [] s = []
answers (c ∷ cs) s = let (a, t) = answer c s in a ∷ answers cs t

unfoldable pub answers_table : List Call → FileTable → List Answer
unfolding answer_table
answers_table [] t = []
answers_table (c ∷ cs) t = let (a, u) = answer_table c t in a ∷ answers_table cs u

abbrev pub files_of : FileSystem → FileTable
files_of s = rows s.files s.file_count 0

-- The slots past the last file are empty.
abbrev pub Clean : FileSystem → Type 0
Clean s = (i : ℕ) → s.file_count ≤ i → (s.files i).content ≡ []

-- A call on the files is the call on their table.
abbrev Agrees : Code × FileSystem → Code × FileTable → Type 0
Agrees x y = (x.0 ≡ y.0) × (files_of x.1 ≡ y.1) × Clean x.1

-- The file that is made.
module _ (s : FileSystem) (name : Text) (clean : Clean s) where
  abbrev slot : File
  slot = record (s.files s.file_count) { name = name; size = 0 }

  abbrev made : FileSystem
  made = record s { files = update s.files s.file_count slot; file_count = s.file_count + 1 }

  files_of-made : files_of made ≡ files_of s ++ ((name, []) ∷ [])
  files_of-made =
      let last : 0 + s.file_count ≡ s.file_count = omega arith in
      rows_end made.files s.file_count 0
      ∙ ap₂ (λ t r. t ++ (r ∷ []))
          (rows_frame made.files s.files s.file_count 0
            (λ j low high. update-ne s.files s.file_count slot j (omega arith)))
          (rw last (
            ap row (update_self s.files s.file_count slot)
            ∙ ap (λ c. (name, c)) (clean s.file_count (omega arith))))

  Clean-made : Clean made
  Clean-made i low =
      let apart : i ≢ s.file_count = omega arith in rw (==_of_ne apart) (clean i (omega arith))

fs_create-Agrees :
    (s : FileSystem) (name : Option Text)
    → Clean s
    → Agrees (fs_create s name) (create_row name (files_of s))
unfolding fs_create create_row
fs_create-Agrees s none h = (refl, refl, h)
fs_create-Agrees s (some name) h =
    let count = length-rows s.files s.file_count 0 in
    elim (Bool-cases (leb max_filename (length name))) [
      | inl long ↦ rw long (refl, refl, h)
      | inr short ↦ elim (Bool-cases (leb max_files s.file_count)) [
        | inl full ↦ rw (short, count, full) (refl, refl, h)
        | inr room ↦ rw (short, count, room) (refl, files_of-made s name h, Clean-made s name h)
      ]
    ]

-- The file that is written.
module _ (s : FileSystem) (name text : Text) (clean : Clean s) (k : ℕ)
    (found : find_file s.files name s.file_count 0 ≡ some k) where
  abbrev file : File
  file = record (s.files k) { content = text; size = length text }

  Clean-written : Clean (record s { files = update s.files k file })
  Clean-written i low =
      let below = find_file_lt s.files name s.file_count 0 k found in
      let apart : i ≢ k = omega arith in rw (==_of_ne apart) (clean i low)

fs_write-Agrees :
    (s : FileSystem) (name text : Option Text)
    → Clean s
    → Agrees (fs_write s name text) (write_row name text (files_of s))
unfolding fs_write write_row write_at
fs_write-Agrees s none text h = (refl, refl, h)
fs_write-Agrees s (some name) none h = (refl, refl, h)
fs_write-Agrees s (some name) (some text) h =
    let row = lookup-rows s.files name s.file_count 0 in
    elim (Bool-cases (leb max_file_size (length text))) [
      | inl long ↦ rw long (refl, refl, h)
      | inr short ↦ elim (Option-cases (find_file s.files name s.file_count 0)) [
        | inl missing ↦ rw (short, row, missing, write_at) (refl, refl, h)
        | inr (k, found) ↦
            rw (short, row, found, write_at)
              (
                refl,
                rows-put s.files name text (length text) s.file_count 0 k found,
                Clean-written s name text h k found,
              )
      ]
    ]

fs_read-rows : (s : FileSystem) (name : Text) → fs_read s (some name) ≡ lookup name (files_of s)
unfolding fs_read
fs_read-rows s name =
    let row = lookup-rows s.files name s.file_count 0 in
    elim (Option-cases (find_file s.files name s.file_count 0)) [
      | inl missing ↦ rw (row, missing, fs_read)
      | inr (k, found) ↦ rw (row, found, fs_read)
    ]

answer-Agrees :
    (c : Call) (s : FileSystem)
    → Clean s
    → ((answer c s).0 ≡ (answer_table c (files_of s)).0)
      × (files_of (answer c s).1 ≡ (answer_table c (files_of s)).1)
      × Clean (answer c s).1
unfolding answer answer_table fs_read
answer-Agrees (create name) s h =
    let (r, t, clean) = fs_create-Agrees s name h in (ap code r, t, clean)
answer-Agrees (write name text) s h =
    let (r, t, clean) = fs_write-Agrees s name text h in (ap code r, t, clean)
answer-Agrees (read none) s h = (refl, refl, h)
answer-Agrees (read (some name)) s h = (ap content (fs_read-rows s name), refl, h)

-- From files whose slots past the last are empty, as the zeroed ones are, every sequence of calls of `fs_create`,
-- `fs_write` and `fs_read`, with whatever arguments, gets the answers that a table of names and contents
-- gives: a new file stands at its end, empty, up to 32 of them with names shorter than 32 bytes; and the first
-- file of a name is the one written, with less than 1024 bytes, and read.
pub answers-answers_table :
    (cs : List Call) (s : FileSystem) → Clean s → answers cs s ≡ answers_table cs (files_of s)
unfolding answers answers_table
answers-answers_table [] s h = refl
answers-answers_table (c ∷ cs) s h =
    let (first, rest, clean) = answer-Agrees c s h in
    ap₂ ◌∷◌ first (answers-answers_table cs (answer c s).1 clean ∙ ap (answers_table cs) rest)
