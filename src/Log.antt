-- ===== src/Log.antt =====
-- kernel/logs/log.c: what it writes to the serial port, in order. The port is ready in the end, and the
-- reads that wait for it change nothing.
pub mod Lines
use cocos_os.Base.{ℕ, ◌+◌, List, [], ◌∷◌, ◌++◌, Text, codes}
use cocos_os.Devices.{PortWrite}

-- `COM1`
abbrev pub com1 : ℕ
com1 = 0x3F8

abbrev pub log_init : List PortWrite
log_init =
    (com1 + 1, 0x00)
    ∷ (com1 + 3, 0x80)
    ∷ (com1 + 0, 0x03)
    ∷ (com1 + 1, 0x00)
    ∷ (com1 + 3, 0x03)
    ∷ (com1 + 2, 0xC7)
    ∷ (com1 + 4, 0x0B)
    ∷ []

abbrev pub serial_write_char : ℕ → List PortWrite
serial_write_char c = (com1, c) ∷ []

-- `"\n"`
abbrev newline : Text
newline = 10 ∷ []

-- Not a loop: the word before the condition is a call of `wrile`, which no file defines and which may write to
-- ports. The byte written is the text's first, or its closing NUL.
module _ (wrile : ℕ → List PortWrite) where
  unfoldable pub log_write : Text → List PortWrite
  log_write [] = wrile 0 ++ serial_write_char 0
  log_write (c ∷ cs) = wrile c ++ serial_write_char c

  unfoldable pub log_info : Text → List PortWrite
  unfolding log_write
  log_info msg = log_write (codes "[INFO] ") ++ (log_write msg ++ log_write newline)

  unfoldable pub log_warn : Text → List PortWrite
  unfolding log_write
  log_warn msg = log_write (codes "[WARN] ") ++ (log_write msg ++ log_write newline)

  unfoldable pub log_error : Text → List PortWrite
  unfolding log_write
  log_error msg = log_write (codes "[ERROR] ") ++ (log_write msg ++ log_write newline)
