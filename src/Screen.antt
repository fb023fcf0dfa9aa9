-- ===== src/Screen.antt =====
-- What terminal/terminal.c and kernel/drivers/display/Display.c write. `display_putc`, `terminal_clear`
-- and `fs_mkdir` are called and defined nowhere in the repository, and `display_clear` and
-- `display_write_char` are written in assembly: each is a call that is recorded with its arguments.
use cocos_os.Base.{ℕ, ◌+◌, ◌*◌, List, [], ◌∷◌, ◌++◌, map, Text, codes}

pub data Call : Type 0 where
  display_putc : ℕ → Call
  display_clear : Call
  display_write_char : ℕ → ℕ → Call
  terminal_clear : Call
  fs_mkdir : Text → Call

abbrev pub newline : ℕ
newline = 10

abbrev pub terminal_write : Text → List Call
terminal_write str = map display_putc str

-- `"\n"`
abbrev pub end_line : Text
end_line = newline ∷ []

abbrev pub terminal_prompt : List Call
terminal_prompt = terminal_write end_line ++ terminal_write (codes "cocos> ")

-- The loop of `display_print`, from a position.
unfoldable pub print_from : Text → ℕ → List Call
print_from [] pos = []
print_from (c ∷ cs) pos = display_write_char c pos ∷ print_from cs (pos + 1)

unfoldable pub display_print : Text → ℕ → List Call
unfolding print_from
display_print str row = print_from str (row * 80)
