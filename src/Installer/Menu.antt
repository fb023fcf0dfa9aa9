-- ===== src/Installer/Menu.antt =====
-- installer/installer_gui.c: the two loops of `main` that read from the keyboard. A line is what `fgets`
-- stores, with its line's end. When the input is used up, `fgets` stores nothing and the loops go on for
-- ever: the result is then `none`.
pub mod Walk
use cocos_os.Base.{
  ℕ, ◌+◌, ◌-◌, ◌*◌, Bool, true, false, ◌&&◌, Option, none, some, List, [], ◌∷◌, ◌++◌, ltb, ◌==◌,
  if◌then◌else◌, Text, codes, str_eq, map,
}
use mathlib.Core.Option
use cocos_os.Installer.Draw.{Effect, print, usleep, draw_text}
use cocos_os.Installer.Detect.{DetectedOs}
use cocos_os.Installer.Screens.{clear_screen, pantalla_idioma, render_installer_ui}

-- `input[0]`
abbrev pub first : Text → ℕ
first [] = 0
first (c ∷ cs) = c

-- The two tests that move the choice.
unfoldable pub move_choice : Text → ℕ → ℕ
move_choice input idioma =
    let up = if first input == b'w' && ltb 0 idioma then idioma - 1 else idioma in
    if first input == b's' && ltb up 9 then up + 1 else up

-- What an iteration prints before it reads a line.
abbrev pub language_screen : ℕ → Effect
language_screen idioma = print (
    clear_screen
    ++ (draw_text 50 30 (codes "CocosOS Installer v1.0.0") (codes "#e94560")
        ++ (pantalla_idioma idioma
            ++ (10 ∷ 10 ∷ codes "w = subir, s = bajar, ENTER = continuar: "))))

-- What is printed, the choice, and the lines that are left.
unfoldable pub choose_language : List Text → ℕ → Option (List Effect × ℕ × List Text)
unfolding move_choice
choose_language [] idioma = none
choose_language (input ∷ lines) idioma =
    let rest =
      Option.map (λ (out, chosen, left). (language_screen idioma ∷ out, chosen, left))
        (choose_language lines (move_choice input idioma)) in
    if first input == 10
    then some (language_screen idioma ∷ [], move_choice input idioma, lines)
    else rest

-- `input[strcspn(input, "\n")] = 0`
unfoldable pub strip_line : Text → Text
strip_line [] = []
strip_line (c ∷ cs) = let rest = c ∷ strip_line cs in if c == 10 then [] else rest

pub data Decision : Type 0 where
  install leave : Decision

abbrev pub action_screen : List DetectedOs → Effect
action_screen detected_os = print (
    clear_screen
    ++ (render_installer_ui detected_os ++ (10 ∷ 10 ∷ codes "Enter action (install/exit): ")))

-- What is printed and waited for, and what was asked for.
unfoldable pub choose_action : List DetectedOs → List Text → Option (List Effect × Decision)
unfolding strip_line str_eq
choose_action detected_os [] = none
choose_action detected_os (input ∷ lines) =
    let rest =
      Option.map (λ (out, decision). (action_screen detected_os ∷ usleep 100000 ∷ out, decision))
        (choose_action detected_os lines) in
    if str_eq (strip_line input) (codes "install")
    then some (action_screen detected_os ∷ [], install)
    else if str_eq (strip_line input) (codes "exit")
    then some (action_screen detected_os ∷ [], leave)
    else rest
