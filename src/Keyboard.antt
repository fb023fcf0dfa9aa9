-- ===== src/Keyboard.antt =====
-- kernel/drivers/keyboard/keyboard.c: the character of a key. `ps2_read_scancode` is written in assembly:
-- the byte that it returns is an argument.
use cocos_os.Base.{ℕ, [], ◌∷◌, ◌++◌, ltb, if◌then◌else◌, get_or, Text, codes}

-- The first entries of `scancode_table[128]`; the others are 0. gcc takes the last byte of the two that
-- the source file has for the letter after `l`.
abbrev pub scancode_table : Text
scancode_table =
    (0 ∷ codes "1234567890-=_")
    ++ ((8 ∷ 9 ∷ codes "qwertyuiop[]")
        ++ ((13 ∷ 0 ∷ codes "asdfghjkl")
            ++ ((0xB1 ∷ codes ";'`")
                ++ ((0 ∷ codes "\\zxcvbnm,./") ++ (0 ∷ b'*' ∷ 0 ∷ b' ' ∷ [])))))

unfoldable pub keyboard_read : ℕ → ℕ
keyboard_read scancode = if ltb 127 scancode then 0 else get_or scancode_table scancode 0
