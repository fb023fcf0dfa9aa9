-- ===== src/Devices/Fields.antt =====
-- The fields that PIC/pic.c, timer/pit.c and IDT/idt.c take apart go back together.
use cocos_os.Base.{ℕ, ◌+◌, ◌-◌, ◌*◌, ◌^◌, ◌<◌, ◌≡◌, ◌≢◌, refl, arith, ==_of_ne}
use cocos_os.Devices.{IdtEntry, Idt, idt_init}

-- The handler's address that the processor puts together from an entry.
abbrev pub handler_of : IdtEntry → ℕ
handler_of e = e.base_high * 2 ^ 16 + e.base_low

-- After `idt_init` with a 32-bit handler the processor finds that handler in entry 32 and the
-- table's size and place in the pointer, and every other entry is as before.
pub idt_init_lem :
    (s : Idt) (table handler : ℕ)
    → handler < 2 ^ 32
    → (handler_of ((idt_init s table handler).entries 32) ≡ handler)
      × ((idt_init s table handler).limit ≡ 256 * 8 - 1)
      × ((idt_init s table handler).base ≡ table)
      × ((n : ℕ) → n ≢ 32 → (idt_init s table handler).entries n ≡ s.entries n)
unfolding idt_init
idt_init_lem s table handler small = (omega arith, refl, refl, λ n ne. rw (==_of_ne ne))
