-- ===== src/Tests/Lines.antt =====
-- The terminal, the shell, the package manager and the console at small inputs.
use cocos_os.Base.{
  ℕ, ◌≡◌, ◌↔◌, refl, arith, List, [], ◌∷◌, ◌++◌, map, replicate, Text, codes, str_eq, take, ◌>>=◌,
  ok, fault,
}
use cocos_os.Screen.{display_putc, newline, terminal_write, end_line, terminal_prompt}
use cocos_os.Shell.{shell_execute, run_command, split, shell_about}
use cocos_os.Shell.Words.{gapped, shell_execute-gapped}
use cocos_os.Shell.Overrun.{Overlong, shell_execute-fault_iff}
use cocos_os.Terminal.{Terminal, type_keys}
use cocos_os.Terminal.Session.{IsTerminal, typed, session, type_keys-session}
use cocos_os.Terminal.Lines.{type_keys-line}
use cocos_os.Console.{console_update}
use cocos_os.Console.Cursor.{console_update-keyboard_read}
use cocos_os.Keyboard.{keyboard_read}

-- `"  cpm   install x "`
abbrev spaced : List ℕ
spaced = replicate 2 b' ' ++ (codes "cpm" ++ gapped 1 ((2, codes "install") ∷ (0, codes "x") ∷ []))

shell_execute-gapped_example :
    shell_execute spaced ≡ run_command (codes "cpm" ∷ codes "install" ∷ codes "x" ∷ [])
shell_execute-gapped_example =
    shell_execute-gapped 2 (codes "cpm") 1 ((2, codes "install") ∷ (0, codes "x") ∷ [])
      (ground arith) (ground arith)

-- `"cpm install "` and a name of 49 bytes
abbrev overlong : Text
overlong = codes "cpm install " ++ replicate 49 b'a'

shell_execute-fault_iff_example : (shell_execute overlong ≡ fault) ↔ Overlong (split 16 overlong)
shell_execute-fault_iff_example = shell_execute-fault_iff overlong

shell_execute_about : shell_execute (codes " about") ≡ ok shell_about
unfolding shell_execute str_eq
shell_execute_about = refl

-- A terminal in which `"abo"` has been typed.
abbrev begun : Terminal
begun = record { input_buffer = codes "abo" ++ replicate 253 0; input_index = 3 }

begun-IsTerminal : IsTerminal begun
begun-IsTerminal = record { size = refl; index_in = omega arith }

type_keys-session_example :
    (type_keys (λ b. b) begun (codes "ut" ++ (newline ∷ [])) >>= λ r. ok r.0)
    ≡ session (typed begun) (codes "ut" ++ (newline ∷ []))
type_keys-session_example =
    type_keys-session (λ b. b) (λ b. refl) begun (codes "ut" ++ (newline ∷ [])) begun-IsTerminal

abbrev blank_terminal : Terminal
blank_terminal = record { input_buffer = replicate 256 7; input_index = 0 }

blank_terminal-IsTerminal : IsTerminal blank_terminal
blank_terminal-IsTerminal = record { size = refl; index_in = omega arith }

type_keys-line_example :
    (type_keys (λ b. b) blank_terminal (codes "about" ++ (newline ∷ [])) >>= λ r. ok r.0) ≡ (
      shell_execute (take 255 (codes "about")) >>= λ out. ok (
        map display_putc (take 255 (codes "about"))
        ++ ((terminal_write end_line ++ (out ++ terminal_prompt)) ++ [])))
type_keys-line_example =
    type_keys-line (λ b. b) (λ b. refl) blank_terminal (codes "about") blank_terminal-IsTerminal
      refl (ground arith) (ground arith)

-- The key of scancode 16.
console_update-keyboard_read_run : console_update (keyboard_read 16) 3 ≡ ([], 3)
console_update-keyboard_read_run = console_update-keyboard_read 16 3 (omega arith) (omega arith)
