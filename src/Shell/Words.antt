-- ===== src/Shell/Words.antt =====
-- How shell/shell.c cuts a line into words.
use cocos_os.Base.{
  ℕ, zero, suc, ◌≡◌, ◌≢◌, refl, ap, ◌∙◌, List, [], ◌∷◌, ◌++◌, take, replicate, Text, ==_of_ne,
}
use cocos_os.Shell.{
  blank, skip_blanks, cut_word, strtok, max_args, split, run_command, shell_execute,
}

abbrev pub NoBlank : Text → Type 0
NoBlank [] = Unit
NoBlank (c ∷ cs) = (c ≢ blank) × NoBlank cs

-- A text of one byte or more, with no blank.
abbrev pub IsWord : Text → Type 0
IsWord [] = ⊥
IsWord (c ∷ cs) = NoBlank (c ∷ cs)

abbrev pub Words : List Text → Type 0
Words [] = Unit
Words (w ∷ ws) = IsWord w × Words ws

-- Words, each after one blank or more, and blanks at the end.
abbrev pub gapped : ℕ → List (ℕ × Text) → Text
gapped e [] = replicate e blank
gapped e ((k, w) ∷ r) = blank ∷ (replicate k blank ++ (w ++ gapped e r))

abbrev pub words_of : List (ℕ × Text) → List Text
words_of [] = []
words_of ((k, w) ∷ r) = w ∷ words_of r

skip_blanks-replicate : (k : ℕ) (t : Text) → skip_blanks (replicate k blank ++ t) ≡ skip_blanks t
unfolding skip_blanks
skip_blanks-replicate zero t = refl
skip_blanks-replicate (suc k) t = skip_blanks-replicate k t

skip_blanks-blanks : (k : ℕ) → skip_blanks (replicate k blank) ≡ []
unfolding skip_blanks
skip_blanks-blanks zero = refl
skip_blanks-blanks (suc k) = skip_blanks-blanks k

split_none : (n : ℕ) (t : Text) → skip_blanks t ≡ [] → split n t ≡ []
unfolding split
split_none zero t h = refl
split_none (suc n) t h = rw (h, split, strtok)

split_some :
    (n : ℕ) (t : Text) (c : ℕ) (cs : Text)
    → skip_blanks t ≡ c ∷ cs
    → split (suc n) t ≡ (cut_word (c ∷ cs)).0 ∷ split n (cut_word (c ∷ cs)).1
unfolding split
split_some n t c cs h = rw (h, split, strtok)

-- What `cut_word` leaves after a word.
after : ℕ → List (ℕ × Text) → Text
after zero [] = []
after (suc e) [] = replicate e blank
after e ((k, w) ∷ r) = replicate k blank ++ (w ++ gapped e r)

cut_word-append :
    (w : Text) (e : ℕ) (r : List (ℕ × Text))
    → NoBlank w
    → cut_word (w ++ gapped e r) ≡ (w, after e r)
unfolding cut_word after
cut_word-append [] zero [] h = refl
cut_word-append [] (suc e) [] h = refl
cut_word-append [] zero ((k, w) ∷ r) h = refl
cut_word-append [] (suc e) ((k, w) ∷ r) h = refl
cut_word-append (c ∷ cs) e r h =
    rw (==_of_ne h.0) (ap (λ (p : Text × Text). (c ∷ p.0, p.1)) (cut_word-append cs e r h.1))

split_word :
    (n k : ℕ) (w : Text) (e : ℕ) (r : List (ℕ × Text))
    → IsWord w
    → split (suc n) (replicate k blank ++ (w ++ gapped e r)) ≡ w ∷ split n (after e r)
split_word n k [] e r h = absurd h
split_word n k (c ∷ cs) e r h =
    split_some n _ c (cs ++ gapped e r) (skip_blanks-replicate k _ ∙ starts)
    ∙ ap (λ (p : Text × Text). p.0 ∷ split n p.1) (cut_word-append (c ∷ cs) e r h)
  where
    starts : skip_blanks (c ∷ (cs ++ gapped e r)) ≡ c ∷ (cs ++ gapped e r)
    starts = unfold skip_blanks in rw (==_of_ne h.0)

split_rest : (n e : ℕ) → split n (after e []) ≡ []
unfolding after
split_rest n zero = split_none n [] (skip_blanks-blanks 0)
split_rest n (suc e) = split_none n (replicate e blank) (skip_blanks-blanks e)

split-gapped :
    (n k : ℕ) (w : Text) (e : ℕ) (r : List (ℕ × Text))
    → IsWord w
    → Words (words_of r)
    → split n (replicate k blank ++ (w ++ gapped e r)) ≡ take n (w ∷ words_of r)
unfolding after
split-gapped zero k w e r h hs = unfold split in refl
split-gapped (suc n) k w e [] h hs =
    split_word n k w e [] h ∙ ap (λ ws. w ∷ ws) (split_rest n e ∙ take_nil n)
  where
    take_nil : (n : ℕ) → ◌≡◌ {A = List Text} [] (take n [])
    take_nil zero = refl
    take_nil (suc n) = refl
split-gapped (suc n) k w zero ((j, v) ∷ r) h hs =
    split_word n k w zero ((j, v) ∷ r) h ∙ ap (λ ws. w ∷ ws) (split-gapped n j v zero r hs.0 hs.1)
split-gapped (suc n) k w (suc e) ((j, v) ∷ r) h hs =
    split_word n k w (suc e) ((j, v) ∷ r) h
    ∙ ap (λ ws. w ∷ ws) (split-gapped n j v (suc e) r hs.0 hs.1)

-- A line of words, with any number of blanks before the first, one or more between two, and any number
-- at the end, runs the command of its first sixteen words.
pub shell_execute-gapped :
    (k : ℕ) (w : Text) (e : ℕ) (r : List (ℕ × Text))
    → IsWord w
    → Words (words_of r)
    → shell_execute (replicate k blank ++ (w ++ gapped e r))
      ≡ run_command (take 16 (w ∷ words_of r))
unfolding shell_execute
shell_execute-gapped k w e r h hs = ap run_command (split-gapped max_args k w e r h hs)
