-- ===== src/Fs/Rows.antt =====
-- The files of filesystem/fs.c as a table of names and contents, in the order of the array.
use cocos_os.Base.{
  FileTable, lookup, put, ℕ, zero, suc, ◌+◌, ◌<◌, ◌≤◌, ◌≡◌, ◌≢◌, refl, ap, ap₂, ◌∙◌, inl, inr, some,
  [], ◌∷◌, ◌++◌, arith, Bool-cases, ==_of_ne, some_inj, update, update_self, update-ne, length,
  Text, str_eq,
}
use mathlib.Core.Option
use mathlib.Core.Path.{subst}
use cocos_os.Fs.{File, find_file}

abbrev pub row : File → Text × Text
row f = (f.name, f.content)

-- The `left` files from `i` on.
unfoldable pub rows : (ℕ → File) → (left i : ℕ) → FileTable
rows files zero i = []
rows files (suc left) i = row (files i) ∷ rows files left (i + 1)

pub lookup-rows :
    (files : ℕ → File) (name : Text) (left i : ℕ)
    → lookup name (rows files left i)
      ≡ Option.map (λ k. (files k).content) (find_file files name left i)
unfolding lookup rows find_file
lookup-rows files name zero i = refl
lookup-rows files name (suc left) i = elim (Bool-cases (str_eq (files i).name name)) [
  | inl here ↦ rw here
  | inr other ↦ rw other (lookup-rows files name left (i + 1))
]

pub length-rows : (files : ℕ → File) (left i : ℕ) → length (rows files left i) ≡ left
unfolding rows
length-rows files zero i = refl
length-rows files (suc left) i = ap suc (length-rows files left (i + 1))

-- Files outside of the range do not matter.
pub rows_frame :
    (f g : ℕ → File) (left i : ℕ)
    → ((j : ℕ) → i ≤ j → j < i + left → f j ≡ g j)
    → rows f left i ≡ rows g left i
unfolding rows
rows_frame f g zero i same = refl
rows_frame f g (suc left) i same =
    ap₂ (λ x r. row x ∷ r) (same i (omega arith) (omega arith))
      (rows_frame f g left (i + 1) (λ j low high. same j (omega arith) (omega arith)))

-- One file more stands at the end.
pub rows_end :
    (f : ℕ → File) (left i : ℕ) → rows f (left + 1) i ≡ rows f left i ++ (row (f (i + left)) ∷ [])
unfolding rows
rows_end f zero i = let at : i + 0 ≡ i = omega arith in rw at
rows_end f (suc left) i =
    let at : i + 1 + left ≡ i + suc left = omega arith in
    let count : suc left + 1 ≡ suc (left + 1) = omega arith in
    rw count (ap (λ r. row (f i) ∷ r) (rows_end f left (i + 1) ∙ rw at))

find_file_le :
    (f : ℕ → File) (name : Text) (left i k : ℕ) → find_file f name left i ≡ some k → i ≤ k
unfolding find_file
find_file_le f name zero i k e = cc e
find_file_le f name (suc left) i k e = elim (Bool-cases (str_eq (f i).name name)) [
  | inl here ↦ omega (arith, some_inj (rw here at e))
  | inr other ↦ omega (arith, find_file_le f name left (i + 1) k (rw other at e))
]

pub find_file_lt :
    (f : ℕ → File) (name : Text) (left i k : ℕ) → find_file f name left i ≡ some k → k < i + left
unfolding find_file
find_file_lt f name zero i k e = cc e
find_file_lt f name (suc left) i k e = elim (Bool-cases (str_eq (f i).name name)) [
  | inl here ↦ omega (arith, some_inj (rw here at e))
  | inr other ↦ omega (arith, find_file_lt f name left (i + 1) k (rw other at e))
]

-- New content of the file that is found.
pub rows-put :
    (f : ℕ → File) (name content : Text) (size left i k : ℕ)
    → find_file f name left i ≡ some k
    → rows (update f k (record (f k) { content = content; size = size })) left i
      ≡ put name content (rows f left i)
unfolding rows put find_file
rows-put f name content size zero i k e = refl
rows-put f name content size (suc left) i k e = elim (Bool-cases (str_eq (f i).name name)) [
  | inl here ↦
      (let at : i ≡ k = some_inj (rw here at e) in
        rw here (
          subst
            (λ n.
              row (update f n (record (f n) { content = content; size = size }) i)
                ∷ rows (update f n (record (f n) { content = content; size = size })) left (i + 1)
              ≡ ((f i).name, content) ∷ rows f left (i + 1))
            at
            (ap₂ (λ x r. row x ∷ r)
              (update_self f i (record (f i) { content = content; size = size }))
              (rows_frame (update f i (record (f i) { content = content; size = size })) f left
                (i + 1)
                (λ j low high.
                  update-ne f i (record (f i) { content = content; size = size }) j
                    (omega arith))))))
  | inr other ↦
      (let later = find_file_le f name left (i + 1) k (rw other at e) in
        let apart : i ≢ k = omega arith in
        rw (other, ==_of_ne apart)
          (ap (λ r. row (f i) ∷ r) (rows-put f name content size left (i + 1) k (rw other at e))))
]
