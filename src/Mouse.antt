-- ===== src/Mouse.antt =====
-- kernel/drivers/mouse/mouse.c: the packets of the PS/2 mouse. What the ports answer is an argument:
-- the status read first, and the byte read after `mouse_wait`, whose polling changes nothing. An
-- `int` is its 32-bit pattern, a `signed char` its byte. The answers of a port are a function of the
-- number of the read.
pub mod Packets
pub mod Waiting
use Prim.Native.Nat.{bit_and, bit_or}
use cocos_os.Memory.{Addr}
use cocos_os.Devices.{PortWrite}
use cocos_os.Interrupts.{Handlers, register_interrupt_handler}
use cocos_os.Base.{
  zero, suc, List, [], ◌∷◌, ◌++◌, ℕ, ◌+◌, ◌-◌, ◌/◌, ◌%◌, ◌^◌, Bool, not, ltb, ◌==◌, if◌then◌else◌,
  update, add32, sub32,
}

-- The static variables of mouse.c.
pub record Mouse : Type 0 where
  pub mouse_cycle : ℕ
  pub mouse_byte : ℕ → ℕ
  pub mouse_x : ℕ
  pub mouse_y : ℕ
  pub mouse_button : ℕ

-- A `signed char` as an `int`.
abbrev pub sign_extend : ℕ → ℕ
sign_extend b = if ltb b 128 then b else 2 ^ 32 - 256 + b

-- `status & 0x20`
abbrev pub from_mouse : ℕ → Bool
from_mouse status = not (bit_and status 0x20 == 0)

-- The packet is complete: buttons, then the two movements.
abbrev pub take_packet : Mouse → Mouse
take_packet s = record s {
  mouse_button = bit_and (s.mouse_byte 0) 7;
  mouse_x = add32 s.mouse_x (sign_extend (s.mouse_byte 1));
  mouse_y = sub32 s.mouse_y (sign_extend (s.mouse_byte 2));
  mouse_cycle = 0;
}

unfoldable pub mouse_handler : ℕ → ℕ → Mouse → Mouse
mouse_handler status byte s =
    if not (from_mouse status)
    then s
    else (let read : Mouse = record s {
      mouse_byte = update s.mouse_byte s.mouse_cycle byte;
      mouse_cycle = s.mouse_cycle + 1;
    } in
        if read.mouse_cycle == 3 then take_packet read else read)

abbrev pub mouse_get_x : Mouse → ℕ
mouse_get_x s = s.mouse_x

abbrev pub mouse_get_y : Mouse → ℕ
mouse_get_y s = s.mouse_y

abbrev pub mouse_get_buttons : Mouse → ℕ
mouse_get_buttons s = s.mouse_button

-- What `mouse_wait` waits for: data to read, or room to write.
abbrev pub is_ready : (type status : ℕ) → Bool
is_ready type status = if type == 0 then not (bit_and status 1 == 0) else bit_and status 2 == 0

-- The loop of `mouse_wait`: how many reads it makes of port 0x64, with `timeout` left.
unfoldable pub wait_from : (type : ℕ) → (answers : ℕ → ℕ) → (timeout i : ℕ) → ℕ
wait_from type answers zero i = i
wait_from type answers (suc timeout) i =
    let rest = wait_from type answers timeout (i + 1) in
    if is_ready type (answers i) then i + 1 else rest

abbrev pub mouse_timeout : ℕ
mouse_timeout = 100000

unfoldable pub mouse_wait : ℕ → (ℕ → ℕ) → ℕ
mouse_wait type answers = wait_from type answers mouse_timeout 0

-- The writes of `mouse_write`.
abbrev pub mouse_write : ℕ → List PortWrite
mouse_write value = (0x64, 0xD4) ∷ (0x60, value) ∷ []

-- The writes of `mouse_init`, given the status that it reads, and the table of handlers afterwards;
-- `handler` is the address of `mouse_handler`.
unfoldable pub mouse_init : ℕ → Addr → Handlers → List PortWrite × Handlers
unfolding register_interrupt_handler
mouse_init status handler s = (
  (0x64, 0xA8) ∷ (0x64, 0x60) ∷ (0x60, bit_or status 2) ∷ (mouse_write 0xF6 ++ mouse_write 0xF4),
  register_interrupt_handler s 12 handler,
)
