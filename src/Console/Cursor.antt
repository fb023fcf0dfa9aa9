-- ===== src/Console/Cursor.antt =====
-- What the keys do in kernel/drivers/console/console.c.
use cocos_os.Base.{
  ℕ, ◌+◌, ◌*◌, ◌/◌, ◌<◌, ◌≡◌, ◌≢◌, refl, inl, inr, arith, [], ltb, ◌==◌, Bool, true, ◌||◌, not,
  ◌&&◌, passes, passes_lem, Bool-cases,
}
use cocos_os.Keyboard.{keyboard_read}
use cocos_os.Console.{console_update}

-- No character but Enter and Backspace does anything.
console_update-other : (c cursor : ℕ) → c ≢ 13 → c ≢ 8 → console_update c cursor ≡ ([], cursor)
unfolding console_update
console_update-other c cursor a b = ground arith

-- Enter stands at scancode 28 of the table, and Backspace at 14.
key_test : ℕ → Bool
unfolding keyboard_read
key_test k = (not (keyboard_read k == 13) || k == 28) && (not (keyboard_read k == 8) || k == 14)

keys : passes key_test 128 ≡ true
unfolding passes key_test
keys = refl

special_keys : (k : ℕ) → ((keyboard_read k ≡ 13) → k ≡ 28) × ((keyboard_read k ≡ 8) → k ≡ 14)
unfolding key_test
special_keys k = elim (Bool-cases (ltb 127 k)) [
  | inl far ↦ rw (far, keyboard_read) (λ e. absurd (omega arith), λ e. absurd (omega arith))
  | inr near ↦
      (let tested = passes_lem key_test 128 k (ground arith) keys in
        (λ e. ground arith, λ e. ground arith))
]

-- A key whose scancode is neither 28, Enter, nor 14, Backspace, changes neither screen nor cursor: a
-- character that is typed is never written.
pub console_update-keyboard_read :
    (scancode cursor : ℕ)
    → scancode ≢ 28
    → scancode ≢ 14
    → console_update (keyboard_read scancode) cursor ≡ ([], cursor)
console_update-keyboard_read scancode cursor enter back =
    console_update-other (keyboard_read scancode) cursor (λ e. enter ((special_keys scancode).0 e))
      (λ e. back ((special_keys scancode).1 e))

-- Enter moves the cursor to the start of the next row of 80 and writes nothing.
pub console_update-enter :
    (cursor : ℕ)
    → let (out, cursor') = console_update 13 cursor in
      (out ≡ []) × (cursor' ≡ (cursor / 80 + 1) * 80) × (cursor < cursor')
unfolding console_update
console_update-enter cursor = (refl, refl, omega arith)
