-- ===== src/Shell.antt =====
-- shell/shell.c: a line is cut into words at its blanks, and the first word names the command.
pub mod Words
pub mod Overrun
use cocos_os.Base.{
  ℕ, zero, suc, Bool, true, false, Option, none, some, List, [], ◌∷◌, ◌++◌, ◌==◌, if◌then◌else◌,
  Text, codes, str_eq, Outcome, ok,
}
use cocos_os.Screen.{Call, terminal_clear, terminal_write, end_line}
use cocos_os.Cpm.{cpm_main}

abbrev pub blank : ℕ
blank = b' '

-- `strtok` passes the blanks before a word,
unfoldable pub skip_blanks : Text → Text
skip_blanks [] = []
skip_blanks (c ∷ cs) = let rest = skip_blanks cs in if c == blank then rest else c ∷ cs

-- and cuts at the next blank, which it drops: the word and what is left.
unfoldable pub cut_word : Text → Text × Text
cut_word [] = ([], [])
cut_word (c ∷ cs) = let rest = cut_word cs in if c == blank then ([], cs) else (c ∷ rest.0, rest.1)

-- `strtok(cmd, " ")`, and with what it left `strtok(NULL, " ")`.
unfoldable pub strtok : Text → Option (Text × Text)
unfolding skip_blanks cut_word
strtok cmd = elim (skip_blanks cmd) [ [] ↦ none | c ∷ cs ↦ some (cut_word (c ∷ cs)) ]

abbrev pub max_args : ℕ
max_args = 16

-- The loop that fills `argv`, with room for `left` more.
unfoldable pub split : (left : ℕ) → Text → List Text
unfolding strtok
split zero cmd = []
split (suc left) cmd = elim (strtok cmd) [
  | none ↦ []
  | some (token, rest) ↦ token ∷ split left rest
]

abbrev pub shell_help : List Call
shell_help = terminal_write (
    codes "Comandos disponibles:"
    ++ (end_line
        ++ (codes "  help"
            ++ (end_line
                ++ (codes "  clear"
                    ++ (end_line
                        ++ (codes "  about" ++ (end_line ++ (codes "  cpm" ++ end_line)))))))))

abbrev pub shell_about : List Call
shell_about =
    terminal_write
      (codes "Cocos OS Alpha V1" ++ (end_line ++ (codes "Kernel: lilcos v1" ++ end_line)))

abbrev pub shell_unknown : List Call
shell_unknown = terminal_write (codes "Comando desconocido" ++ end_line)

-- The branches on `argv[0]`.
unfoldable pub run_command : List Text → Outcome (List Call)
unfolding cpm_main
run_command [] = ok []
run_command (name ∷ args) =
    if str_eq name (codes "help")
    then ok shell_help
    else if str_eq name (codes "clear")
    then ok (terminal_clear ∷ [])
    else if str_eq name (codes "about")
    then ok shell_about
    else if str_eq name (codes "cpm")
    then cpm_main (name ∷ args)
    else ok shell_unknown

unfoldable pub shell_execute : Text → Outcome (List Call)
unfolding split run_command
shell_execute cmd = run_command (split max_args cmd)
