-- ===== src/Devices.antt =====
-- What the drivers write to the ports: PIC/pic.c, timer/pit.c and the entry that IDT/idt.c makes. A list
-- of port writes is in the order of the `outb` calls.
pub mod Fields
use cocos_os.Base.{ℕ, zero, suc, ◌+◌, ◌-◌, ◌*◌, ◌/◌, ◌%◌, ◌^◌, List, [], ◌∷◌, ◌++◌, update}

-- A port and the value written to it.
abbrev pub PortWrite : Type 0
PortWrite = ℕ × ℕ

-- `struct idt_entry`
pub record IdtEntry : Type 0 where
  pub base_low : ℕ
  pub selector : ℕ
  pub zero_byte : ℕ
  pub flags : ℕ
  pub base_high : ℕ

-- `struct idt_ptr` and the table.
pub record Idt : Type 0 where
  pub entries : ℕ → IdtEntry
  pub limit : ℕ
  pub base : ℕ

unfoldable pub idt_set_gate : Idt → (n base selector flags : ℕ) → Idt
idt_set_gate s n base selector flags = record s {
  entries = update s.entries n (record {
    base_low = base % 2 ^ 16;
    selector = selector;
    zero_byte = 0;
    flags = flags % 2 ^ 8;
    base_high = base / 2 ^ 16 % 2 ^ 16;
  });
}

-- The addresses of the table and of `irq0_handler` are arguments. 2048 is `sizeof(idt)`.
unfoldable pub idt_init : Idt → (table handler : ℕ) → Idt
unfolding idt_set_gate
idt_init s table handler =
    idt_set_gate (record s { limit = (2048 - 1) % 2 ^ 16; base = table }) 32 handler 0x08 0x8E

abbrev pub pic_init : List PortWrite
pic_init =
    (0x20, 0x11)
    ∷ (0xA0, 0x11)
    ∷ (0x21, 0x04)
    ∷ (0xA1, 0x02)
    ∷ (0x21, 0x01)
    ∷ (0xA1, 0x01)
    ∷ (0x21, 0xFC)
    ∷ (0xA1, 0xFF)
    ∷ []

-- The second byte is the `uint8_t` that `outb` takes.
unfoldable pub pit_init : ℕ → List PortWrite
pit_init frequency =
    let divisor = 1193180 / frequency in
    (0x43, 0x36) ∷ (0x40, divisor % 2 ^ 8) ∷ (0x40, divisor / 2 ^ 8 % 2 ^ 8) ∷ []
