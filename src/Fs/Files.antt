-- ===== src/Fs/Files.antt =====
-- Reading, writing and creating files in filesystem/fs.c.
use cocos_os.Base.{
  ℕ, zero, suc, ◌+◌, ◌<◌, ◌≡◌, ◌≢◌, refl, sym, ap, ap₂, ◌∙◌, inl, inr, false, Option, none, some,
  arith, leb, ◌==◌, if◌then◌else◌, Bool-cases, Option-cases, ==_iff, ==_of_ne, ==_self, some_inj,
  update, update_self, length, Text, str_eq, str_eq_self, str_eq→eq,
}
use cocos_os.Fs.{
  max_files, max_filename, max_file_size, Code, done, File, FileSystem, fs_create, find_file,
  write_at, fs_write, fs_read,
}

-- The search sees names only.
find_file_names :
    (f g : ℕ → File) (name : Text) (left i : ℕ)
    → ((j : ℕ) → (f j).name ≡ (g j).name)
    → find_file f name left i ≡ find_file g name left i
unfolding find_file
find_file_names f g name zero i same = refl
find_file_names f g name (suc left) i same =
    ap₂ (λ b r. if b then some i else r) (ap (λ n. str_eq n name) (same i))
      (find_file_names f g name left (i + 1) same)

-- The file that is found has the name.
find_file_name :
    (f : ℕ → File) (name : Text) (left i k : ℕ)
    → find_file f name left i ≡ some k
    → (f k).name ≡ name
unfolding find_file
find_file_name f name zero i k e = cc e
find_file_name f name (suc left) i k e = elim (Bool-cases (str_eq (f i).name name)) [
  | inl here ↦ ap (λ j. (f j).name) (sym (some_inj (rw here at e))) ∙ str_eq→eq (f i).name name here
  | inr other ↦ find_file_name f name left (i + 1) k (rw other at e)
]

module _ (s : FileSystem) (i : ℕ) (content : Text) where
  abbrev written : ℕ → File
  written =
      let file = s.files i in
      update s.files i (record file { content = content; size = length content })

  written_name : (j : ℕ) → (written j).name ≡ (s.files j).name
  written_name j = elim (Bool-cases (j == i)) [
    | inl here ↦ rw here (ap (λ k. (s.files k).name) (sym ((==_iff j i).0 here)))
    | inr other ↦ rw other
  ]

fs_write_found :
    (s : FileSystem) (name content : Text) (i : ℕ)
    → length content < max_file_size
    → find_file s.files name s.file_count 0 ≡ some i
    → fs_write s (some name) (some content) ≡ (done, record s { files = written s i content })
unfolding fs_write
fs_write_found s name content i short found =
    let fits : leb max_file_size (length content) ≡ false = ground arith in rw (fits, found)

fs_read_found :
    (s : FileSystem) (name : Text) (i : ℕ)
    → find_file s.files name s.file_count 0 ≡ some i
    → fs_read s (some name) ≡ some (s.files i).content
unfolding fs_read
fs_read_found s name i found = rw (found, fs_read)

fs_write_done :
    (s : FileSystem) (name content : Text)
    → (fs_write s (some name) (some content)).0 ≡ done
    → (i : ℕ) × (length content < max_file_size) × (find_file s.files name s.file_count 0 ≡ some i)
unfolding fs_write write_at
fs_write_done s name content e = elim (Bool-cases (leb max_file_size (length content))) [
  | inl long ↦ cc (rw long at e)
  | inr short ↦ elim (Option-cases (find_file s.files name s.file_count 0)) [
    | inl missing ↦ cc (rw (short, missing, write_at) at e)
    | inr (i, found) ↦ (i, ground arith, found)
  ]
]

-- The search in the written table finds what it found before.
find_file-written :
    (s : FileSystem) (i : ℕ) (content other : Text)
    → find_file (written s i content) other s.file_count 0 ≡ find_file s.files other s.file_count 0
find_file-written s i content other =
    find_file_names (written s i content) s.files other s.file_count 0 (written_name s i content)

read_other :
    (s : FileSystem) (i : ℕ) (content other : Text) (o : Option ℕ)
    → ((s.files i).name ≢ other)
    → find_file s.files other s.file_count 0 ≡ o
    → fs_read (record s { files = written s i content }) (some other) ≡ fs_read s (some other)
unfolding fs_read
read_other s i content other none ne found =
    rw (find_file-written s i content other, found, fs_read)
read_other s i content other (some k) ne found =
    let apart : k ≢ i = λ e.
      ne (
        ap (λ j. (s.files j).name) (sym e) ∙ find_file_name s.files other s.file_count 0 k found) in
    rw (find_file-written s i content other, found, fs_read, ==_of_ne apart)

-- After an `fs_write` that succeeds the file reads back as written, and every other name reads as
-- before.
pub fs_read-fs_write :
    (s : FileSystem) (name content : Text)
    → (fs_write s (some name) (some content)).0 ≡ done
    → (fs_read (fs_write s (some name) (some content)).1 (some name) ≡ some content)
      × ((other : Text)
          → name ≢ other
          → fs_read (fs_write s (some name) (some content)).1 (some other) ≡ fs_read s (some other))
fs_read-fs_write s name content e =
    let (i, short, found) = fs_write_done s name content e in
    let state = ap (λ (r : Code × FileSystem). r.1) (fs_write_found s name content i short found) in
    let same = find_file_name s.files name s.file_count 0 i found in
    (
      ap (λ t. fs_read t (some name)) state
          ∙ fs_read_found (record s { files = written s i content }) name i
              (find_file-written s i content name ∙ found)
          ∙ ap (λ (f : File). some f.content) (update_self s.files i _),
      λ other ne.
          ap (λ t. fs_read t (some other)) state
          ∙ read_other s i content other (find_file s.files other s.file_count 0)
              (λ q. ne (sym same ∙ q)) refl,
    )

-- A search among more files finds the same, or looks at the files added.
find_file-suc :
    (f : ℕ → File) (name : Text) (left i : ℕ)
    → find_file f name left i ≡ none
    → find_file f name (suc left) i
      ≡ (if str_eq (f (i + left)).name name then some (i + left) else none)
unfolding find_file
find_file-suc f name zero i e = let here : i + 0 ≡ i = omega arith in rw here
find_file-suc f name (suc left) i e = elim (Bool-cases (str_eq (f i).name name)) [
  | inl here ↦ cc (rw here at e)
  | inr other ↦
      (let step : i + 1 + left ≡ i + suc left = omega arith in
        rw other (
          (find_file-suc f name left (i + 1) (rw other at e))
          ∙ ap (λ k. if str_eq (f k).name name then some k else none) step))
]

-- It looks at no file past the last.
find_file_frame :
    (f g : ℕ → File) (name : Text) (left i : ℕ)
    → ((j : ℕ) → j < i + left → (f j).name ≡ (g j).name)
    → find_file f name left i ≡ find_file g name left i
unfolding find_file
find_file_frame f g name zero i same = refl
find_file_frame f g name (suc left) i same =
    ap₂ (λ b r. if b then some i else r) (ap (λ n. str_eq n name) (same i (omega arith)))
      (find_file_frame f g name left (i + 1) (λ j q. same j (omega arith)))

module _ (s : FileSystem) (name : Text) where
  abbrev created : FileSystem
  created =
      let slot = s.files s.file_count in
      record s {
        files = update s.files s.file_count (record slot { name = name; size = 0 });
        file_count = s.file_count + 1;
      }

  fs_create_done : (fs_create s (some name)).0 ≡ done → (fs_create s (some name)).1 ≡ created
  unfolding fs_create
  fs_create_done e = elim (Bool-cases (leb max_filename (length name))) [
    | inl long ↦ cc (rw long at e)
    | inr fits ↦ elim (Bool-cases (leb max_files s.file_count)) [
      | inl full ↦ cc (rw (fits, full) at e)
      | inr room ↦ rw (fits, room)
    ]
  ]

  find_created :
      find_file s.files name s.file_count 0 ≡ none
      → find_file created.files name (s.file_count + 1) 0 ≡ some s.file_count
  find_created missing =
      let before =
        find_file_frame created.files s.files name s.file_count 0
          (λ j q. let ne : j ≢ s.file_count = omega arith in rw (==_of_ne ne)) in
      let count : s.file_count + 1 ≡ suc s.file_count = omega arith in
      let last : 0 + s.file_count ≡ s.file_count = omega arith in
      rw count (
        find_file-suc created.files name s.file_count 0 (before ∙ missing)
        ∙ rw (last, ==_self s.file_count, str_eq_self name))

-- A file that `fs_create` has just made under a new name reads as whatever its slot held before.
pub fs_read-fs_create :
    (s : FileSystem) (name : Text)
    → (fs_create s (some name)).0 ≡ done
    → fs_read s (some name) ≡ none
    → fs_read (fs_create s (some name)).1 (some name) ≡ some (s.files s.file_count).content
unfolding fs_read
fs_read-fs_create s name e unread =
    ap (λ t. fs_read t (some name)) (fs_create_done s name e)
    ∙ rw (find_created s name (missing (find_file s.files name s.file_count 0) unread), fs_read)
        (ap (λ (f : File). some f.content) (update_self s.files s.file_count _))
  where
    missing :
        (o : Option ℕ)
        → elim o as (λ _. Option Text) [ none ↦ none | some i ↦ some (s.files i).content ] ≡ none
        → o ≡ none
    missing none h = refl
    missing (some i) h = cc h
