-- ===== src/Mouse/Packets.antt =====
-- The packets that kernel/drivers/mouse/mouse.c puts together.
use Prim.Native.Nat.{bit_and}
use cocos_os.Base.{
  ℕ, ◌+◌, ◌-◌, ◌%◌, ◌^◌, ◌<◌, ◌≤◌, ◌≡◌, refl, ap, ◌∙◌, true, false, arith, ltb, ◌==◌, if◌then◌else◌,
  List, [], ◌∷◌, map, Bool-cases, add32, sub32, inl, inr,
}
use cocos_os.Mouse.{Mouse, sign_extend, from_mouse, mouse_handler}

-- If the index into `mouse_byte[3]` is below 3, it is so after `mouse_handler`, whatever the ports
-- answer.
pub mouse_handler_cycle :
    (status byte : ℕ) (s : Mouse)
    → s.mouse_cycle < 3
    → (mouse_handler status byte s).mouse_cycle < 3
unfolding mouse_handler
mouse_handler_cycle status byte s h = elim (Bool-cases (from_mouse status)) [
  | inl ours ↦ elim (Bool-cases (s.mouse_cycle + 1 == 3)) [
    | inl last ↦ rw (ours, last) (omega arith)
    | inr more ↦ rw (ours, more) (ground arith)
  ]
  | inr other ↦ rw other h
]

-- A movement along an axis, the byte that the mouse sends for it, and what it makes of a 32-bit place.
pub data Move : Type 0 where
  forward backward : ℕ → Move

abbrev pub move_byte : Move → ℕ
move_byte (forward n) = n
move_byte (backward n) = 256 - n

-- A byte has the movements from 128 back to 127 forward.
abbrev pub InByte : Move → Type 0
InByte (forward n) = n < 128
InByte (backward n) = (0 < n) × (n ≤ 128)

abbrev pub Moved : Move → (before after : ℕ) → Type 0
Moved (forward n) before after = (after < 2 ^ 32) × (after ≡ (before + n) % 2 ^ 32)
Moved (backward n) before after = (after < 2 ^ 32) × (before ≡ (after + n) % 2 ^ 32)

abbrev pub opposite : Move → Move
opposite (forward n) = backward n
opposite (backward n) = forward n

add-Moved :
    (m : Move) (x : ℕ) → x < 2 ^ 32 → InByte m → Moved m x (add32 x (sign_extend (move_byte m)))
add-Moved (forward n) x lt small =
    let low : ltb n 128 ≡ true = ground arith in rw low (omega arith, refl)
add-Moved (backward n) x lt small =
    let high : ltb (256 - n) 128 ≡ false = ground arith in rw high (omega arith, omega arith)

sub-Moved :
    (m : Move) (x : ℕ)
    → x < 2 ^ 32
    → InByte m
    → Moved (opposite m) x (sub32 x (sign_extend (move_byte m)))
sub-Moved (forward n) x lt small =
    let low : ltb n 128 ≡ true = ground arith in rw low (omega arith, omega arith)
sub-Moved (backward n) x lt small =
    let high : ltb (256 - n) 128 ≡ false = ground arith in rw high (omega arith, omega arith)

-- Interrupts one after another, each with the status and the byte that the ports answer.
unfoldable pub handle_all : List (ℕ × ℕ) → Mouse → Mouse
unfolding mouse_handler
handle_all [] s = s
handle_all ((status, byte) ∷ rest) s = handle_all rest (mouse_handler status byte s)

-- The bytes with bit 5 of the status set, which says that they are from the mouse.
abbrev pub from_the_mouse : List (ℕ × ℕ) → List ℕ
from_the_mouse [] = []
from_the_mouse ((status, byte) ∷ rest) =
    let more = from_the_mouse rest in if bit_and status 0x20 == 0 then more else byte ∷ more

-- Nothing but the bytes from the mouse counts.
handle_all-from_the_mouse :
    (answers : List (ℕ × ℕ)) (s : Mouse)
    → handle_all answers s ≡ handle_all (map (λ b. (0x20, b)) (from_the_mouse answers)) s
unfolding handle_all mouse_handler
handle_all-from_the_mouse [] s = refl
handle_all-from_the_mouse ((status, byte) ∷ rest) s = elim (Bool-cases (bit_and status 0x20 == 0)) [
  | inl other ↦ rw other (handle_all-from_the_mouse rest s)
  | inr ours ↦ rw ours (handle_all-from_the_mouse rest (mouse_handler 0x20 byte s))
]

-- From any place of 32 bits and with no packet begun, interrupts that bring three bytes from the mouse, the buttons and
-- the codes of two movements between 128 back and 127 forward, and any number of others
-- among them, set the three buttons, move the pointer by the first movement in x and by the opposite of the
-- second in y, wrapping at 32 bits, and leave no packet begun.
pub mouse_handler_packet :
    (s : Mouse) (answers : List (ℕ × ℕ)) (flags : ℕ) (dx dy : Move)
    → s.mouse_cycle ≡ 0
    → s.mouse_x < 2 ^ 32
    → s.mouse_y < 2 ^ 32
    → InByte dx
    → InByte dy
    → from_the_mouse answers ≡ flags ∷ move_byte dx ∷ move_byte dy ∷ []
    → let s' = handle_all answers s in
      (s'.mouse_button ≡ bit_and flags 7)
      × Moved dx s.mouse_x s'.mouse_x
      × Moved (opposite dy) s.mouse_y s'.mouse_y
      × (s'.mouse_cycle ≡ 0)
unfolding handle_all mouse_handler
mouse_handler_packet s answers flags dx dy start x y okx oky three =
    let same =
      handle_all-from_the_mouse answers s
      ∙ ap (λ bs. handle_all (map (λ b. (0x20, b)) bs) s) three in
    rw (same, start) (refl, add-Moved dx s.mouse_x x okx, sub-Moved dy s.mouse_y y oky, refl)
