-- ===== src/Terminal.antt =====
-- terminal/terminal.c: the line that is typed, and what is done with it. `strtok`, which the shell
-- calls, writes NULs into the buffer: what it leaves there is an argument.
pub mod Session
pub mod Lines
use cocos_os.Base.{
  ℕ, ◌+◌, List, [], ◌∷◌, ◌++◌, ltb, ◌==◌, if◌then◌else◌, set, codes, until_nul, Outcome, ok, ◌>>=◌,
}
use cocos_os.Screen.{
  Call, display_putc, display_clear, newline, terminal_write, end_line, terminal_prompt,
}
use cocos_os.Shell.{shell_execute}

-- `input_buffer[256]` and `input_index`
pub record Terminal : Type 0 where
  pub input_buffer : List ℕ
  pub input_index : ℕ

abbrev pub terminal_init : List Call
terminal_init = display_clear ∷ (terminal_write (codes "Cocos-OS shell") ++ terminal_prompt)

module _ (strtok_writes : List ℕ → List ℕ) where
  -- What is written, and the buffer afterwards.
  unfoldable pub terminal_input : Terminal → ℕ → Outcome (List Call × Terminal)
  unfolding shell_execute
  terminal_input s c =
      if c == newline
      then (let buffer = set s.input_buffer s.input_index 0 in
          shell_execute (until_nul buffer) >>= λ out. ok (
            terminal_write end_line ++ (out ++ terminal_prompt),
            record { input_buffer = strtok_writes buffer; input_index = 0 },
          ))
      else if ltb s.input_index 255
      then ok (
        display_putc c ∷ [],
        record {
          input_buffer = set s.input_buffer s.input_index c;
          input_index = s.input_index + 1;
        },
      )
      else ok ([], s)

  -- The keys that are typed, one after the other.
  unfoldable pub type_keys : Terminal → List ℕ → Outcome (List Call × Terminal)
  unfolding terminal_input
  type_keys s [] = ok ([], s)
  type_keys s (c ∷ cs) = do
    (out, s1) ← terminal_input s c
    (more, s2) ← type_keys s1 cs
    ok (out ++ more, s2)
