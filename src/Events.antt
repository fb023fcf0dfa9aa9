-- ===== src/Events.antt =====
-- kernel/events/event.c and kernel/input/input.c: the two queues between the interrupt handlers
-- and the main loop, and the handlers of timer/timer.c, kernel/drivers/keyboard/keyboard.c and
-- kernel/drivers/mouse/mouse.c that fill them.
pub mod Delivery
use cocos_os.Base.{ℕ, ◌+◌, ◌%◌, ◌^◌, Option, add32}
use cocos_os.Ring
use cocos_os.Ring.{Ring}

-- `event_t`
pub record Event : Type 0 where
  pub type : ℕ
  pub data1 : ℕ
  pub data2 : ℕ

-- `EVENT_KEY`, `EVENT_MOUSE` and `EVENT_TIMER`
abbrev pub event_key : ℕ
event_key = 1

abbrev pub event_mouse : ℕ
event_mouse = 2

abbrev pub event_timer : ℕ
event_timer = 3

abbrev pub event_queue_size : ℕ
event_queue_size = 64

-- `input_type_t`
pub data InputType : Type 0 where
  input_none input_keyboard input_mouse : InputType

-- `input_event_t`
pub record InputEvent : Type 0 where
  pub type : InputType
  pub data1 : ℕ
  pub data2 : ℕ
  pub data3 : ℕ

abbrev pub input_queue_size : ℕ
input_queue_size = 64

-- The static variables of event.c, input.c and timer.c.
pub record Queues : Type 0 where
  pub events : Ring Event
  pub inputs : Ring InputEvent
  pub ticks : ℕ

unfoldable pub event_init : Queues → Queues
unfolding Ring.init
event_init s = record s { events = Ring.init s.events }

-- event.h names it `event_push`, event.c `event_pust`.
unfoldable pub event_push : Queues → Event → Queues
unfolding Ring.push
event_push s e = record s { events = Ring.push event_queue_size s.events e }

unfoldable pub event_poll : Queues → Option Event × Queues
unfolding Ring.poll
event_poll s = let (out, r) = Ring.poll event_queue_size s.events in (out, record s { events = r })

unfoldable pub input_init : Queues → Queues
unfolding Ring.init
input_init s = record s { inputs = Ring.init s.inputs }

unfoldable pub input_push_event : Queues → InputEvent → Queues
unfolding Ring.push
input_push_event s e = record s { inputs = Ring.push input_queue_size s.inputs e }

unfoldable pub input_poll_event : Queues → Option InputEvent × Queues
unfolding Ring.poll
input_poll_event s =
    let (out, r) = Ring.poll input_queue_size s.inputs in (out, record s { inputs = r })

unfoldable pub timer_init : Queues → Queues
timer_init s = record s { ticks = 0 }

-- The code sets no `data2`: `rest` is what the stack holds there.
unfoldable pub timer_tick : ℕ → Queues → Queues
unfolding event_push
timer_tick rest s =
    let ticks = add32 s.ticks 1 in
    event_push (record s { ticks = ticks })
      (record { type = event_timer; data1 = ticks; data2 = rest })

-- The code sets neither `data2` nor `data3` of the input event.
unfoldable pub keyboard_irq_handler : ℕ → ℕ → ℕ → Queues → Queues
unfolding event_push input_push_event
keyboard_irq_handler rest2 rest3 scancode s =
    let s' = event_push s (record { type = event_key; data1 = scancode; data2 = 0 }) in
    input_push_event s'
      (record { type = input_keyboard; data1 = scancode; data2 = rest2; data3 = rest3 })

-- `mouse_x` and `mouse_y` are passed as the bit patterns that `data1` and `data2` hold, and `dx` and
-- `dy` as the bytes that `data2` and `data3` hold.
unfoldable pub mouse_irq_handler : ℕ → ℕ → ℕ → ℕ → ℕ → Queues → Queues
unfolding event_push input_push_event
mouse_irq_handler mouse_x mouse_y buttons dx dy s =
    let s' = event_push s (record { type = event_mouse; data1 = mouse_x; data2 = mouse_y }) in
    input_push_event s' (record { type = input_mouse; data1 = buttons; data2 = dx; data3 = dy })
