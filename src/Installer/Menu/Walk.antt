-- ===== src/Installer/Menu/Walk.antt =====
-- Where the choice in the menu of installer/installer_gui.c ends.
use cocos_os.Base.{
  ℕ, ◌+◌, ◌-◌, ◌≤◌, ◌≡◌, ◌≢◌, ap, ◌∙◌, inl, inr, true, false, arith, some, List, [], ◌∷◌, ◌++◌, ltb,
  ◌==◌, if◌then◌else◌, Text, Bool-cases, ==_of_ne,
}
use mathlib.Core.Option
use cocos_os.Installer.Draw.{Effect}
use cocos_os.Installer.Menu.{language_screen, first, move_choice, choose_language}

-- What a line asks for.
pub data Move : Type 0 where
  up down stay : Move

abbrev pub move_of : Text → Move
move_of input = if first input == b'w' then up else if first input == b's' then down else stay

-- One step on the entries 0 to 9, which stops at both ends.
abbrev pub step : Move → ℕ → ℕ
step up n = n - 1
step down n = if ltb n 9 then n + 1 else n
step stay n = n

abbrev pub walk : List Text → ℕ → ℕ
walk [] n = n
walk (input ∷ lines) n = walk lines (step (move_of input) n)

-- No line begins with the line's end.
abbrev pub NoEnter : List Text → Type 0
NoEnter [] = Unit
NoEnter (input ∷ lines) = (first input ≢ 10) × NoEnter lines

move_choice-step : (input : Text) (n : ℕ) → move_choice input n ≡ step (move_of input) n
unfolding move_choice
move_choice-step input n = elim (Bool-cases (first input == b'w')) [
  | inl w ↦
      (let not_s : (first input == b's') ≡ false = ground arith in rw (w, not_s) (ground arith))
  | inr not_w ↦ elim (Bool-cases (first input == b's')) [
    | inl s ↦ rw (not_w, s)
    | inr not_s ↦ rw (not_w, not_s)
  ]
]

step_bounds : (m : Move) (n : ℕ) → n ≤ 9 → step m n ≤ 9
step_bounds up n h = omega arith
step_bounds down n h = ground arith
step_bounds stay n h = h

walk_bounds : (lines : List Text) (n : ℕ) → n ≤ 9 → walk lines n ≤ 9
walk_bounds [] n h = h
walk_bounds (input ∷ lines) n h =
    walk_bounds lines (step (move_of input) n) (step_bounds (move_of input) n h)

enter_stays : (input : Text) (n : ℕ) → (first input == 10) ≡ true → move_choice input n ≡ n
unfolding move_choice
enter_stays input n h =
    let not_w : (first input == b'w') ≡ false = ground arith in
    let not_s : (first input == b's') ≡ false = ground arith in rw (not_w, not_s)

-- What is printed meanwhile: the menu with the choice before each line.
abbrev pub screens : List Text → ℕ → List Effect
screens [] n = language_screen n ∷ []
screens (input ∷ lines) n = language_screen n ∷ screens lines (step (move_of input) n)

chosen :
    (lines : List Text) (enter : Text) (rest : List Text) (n : ℕ)
    → NoEnter lines
    → first enter ≡ 10
    → choose_language (lines ++ (enter ∷ rest)) n ≡ some (screens lines n, walk lines n, rest)
unfolding choose_language
chosen [] enter rest n h e =
    let at : (first enter == 10) ≡ true = ground arith in
    rw at (ap (λ k. some (language_screen n ∷ [], k, rest)) (enter_stays enter n at))
chosen (input ∷ lines) enter rest n h e = rw (==_of_ne h.0) (
    ap (Option.map (λ (out, chosen, left). (language_screen n ∷ out, chosen, left))) (
      chosen lines enter rest (move_choice input n) h.1 e
      ∙ ap (λ k. some (screens lines k, walk lines k, rest)) (move_choice-step input n)))

-- The language menu returns at the first line that is empty, with the choice that the lines before it
-- lead to, up for `w` and down for `s` and never past the first or the tenth language; before each of
-- these lines it has shown the choice so far.
pub choose_language_lem :
    (lines : List Text) (enter : Text) (rest : List Text) (n : ℕ)
    → NoEnter lines
    → first enter ≡ 10
    → n ≤ 9
    → (choose_language (lines ++ (enter ∷ rest)) n ≡ some (screens lines n, walk lines n, rest))
      × (walk lines n ≤ 9)
choose_language_lem lines enter rest n h e small =
    (chosen lines enter rest n h e, walk_bounds lines n small)
