-- ===== src/Interrupts.antt =====
-- kernel/drivers/ISR/isr.c, interrupts/irq.c and kernel/panic.c: the table of handlers, the timer's
-- interrupt, and the stop of the machine. A handler is its address.
use cocos_os.Base.{ℕ, Option, some, List, [], ◌∷◌, update}
use cocos_os.Memory.{Addr}
use cocos_os.Scheduler
use cocos_os.Scheduler.{Tasks}
use cocos_os.Devices.{PortWrite}

-- `interrupt_handlers`
abbrev pub Handlers : Type 0
Handlers = ℕ → Option Addr

unfoldable pub register_interrupt_handler : Handlers → ℕ → Addr → Handlers
register_interrupt_handler s n handler = update s n (some handler)

-- The call of `context_switch`, if there is one, the tasks afterwards, and the end of the interrupt that
-- is written.
unfoldable pub irq0_handler_c : Tasks → Option (Addr × ℕ) × Tasks × List PortWrite
unfolding Scheduler.scheduler_tick
irq0_handler_c s = let (switch, s') = Scheduler.scheduler_tick s in (switch, s', (0x20, 0x20) ∷ [])

-- `PANIC_NONE` and `PANIC_FATAL`
pub data PanicState : Type 0 where
  none_yet fatal : PanicState

-- `kernel_panic_state` and `kernel_panic_code`
pub record Panic : Type 0 where
  pub state : PanicState
  pub code : ℕ

-- What is left when the machine halts.
unfoldable pub kernel_panic : ℕ → Panic → Panic
kernel_panic code s = record { state = fatal; code = code }
