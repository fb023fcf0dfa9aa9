-- ===== src/Console.antt =====
-- kernel/drivers/console/console.c: the cursor, and what a key does to the screen. The cursor starts at 0 and
-- never goes below it. What `keyboard_read` returns is an argument.
pub mod Cursor
use cocos_os.Base.{ℕ, ◌+◌, ◌-◌, ◌*◌, ◌/◌, List, [], ◌∷◌, ltb, ◌==◌, if◌then◌else◌}
use cocos_os.Screen.{Call, display_clear, display_write_char}

-- What is written, and the cursor afterwards.
abbrev pub console_init : List Call × ℕ
console_init = (display_clear ∷ [], 0)

unfoldable pub console_update : ℕ → ℕ → List Call × ℕ
console_update c cursor =
    if c == 0
    then ([], cursor)
    else if c == 13
    then ([], (cursor / 80 + 1) * 80)
    else if c == 8
    then (if ltb 0 cursor
        then (display_write_char b' ' (cursor - 1) ∷ [], cursor - 1)
        else (display_write_char c cursor ∷ [], cursor + 1))
    else ([], cursor)
