-- ===== src/Tests/Queues.antt =====
-- The queues of kernel/events/event.c, kernel/input/input.c and IPC/ipc.c at small inputs.
use cocos_os.Base.{
  ℕ, ◌≡◌, refl, none, some, List, [], ◌∷◌, arith, ◌==◌, if◌then◌else◌, replicate, until_nul,
}
use mathlib.Core.Equiv.{◌≃◌}
use mathlib.Core.Quot
use native.Mathlib.Nat.{ℕ_set}
use cocos_os.Ring
use cocos_os.Ring.{Ring, Op, put, get}
use cocos_os.Ring.Lossy
use cocos_os.Ring.Refine.{IsRing, contents, run_refines}
use cocos_os.Ring.Observed.{Observed, Short, Observed-Short}
use cocos_os.Events.{
  Event, event_key, input_keyboard, Queues, event_push, event_poll, keyboard_irq_handler,
}
use cocos_os.Events.Delivery.{
  IsReady, waiting_events, waiting_inputs, event_push_overflow, keyboard_irq_handler_lem,
}
use cocos_os.Ipc.{MessageQueue, done, failed, ipc_send, ipc_receive}
use cocos_os.Ipc.Answers.{
  AllFit, Fits, Call, send, receive, sent, received, answers, answers_texts, answers-answers_texts,
}
use cocos_os.Ipc.Refine.{IsQueue, texts, ipc_send_lem, ipc_receive_lem, ipc_receive_none}

-- A ring of four, with 7 and 8 round the end.
abbrev ring : Ring ℕ
ring = record { queue = λ i. if i == 3 then 7 else 8; head = 3; tail = 1 }

ring-IsRing : IsRing 4 ring
ring-IsRing = record { head_in = omega arith; tail_in = omega arith }

-- Two entries wait, a third fits, and a fourth empties the ring.
abbrev script : List (Op ℕ)
script = get ∷ put 1 ∷ put 2 ∷ put 3 ∷ get ∷ []

run_refines_example : Ring.run 4 ring script ≡ some 7 ∷ none ∷ []
unfolding Lossy.run Lossy.push Lossy.poll
run_refines_example = run_refines 4 ring script ring-IsRing

Event-set : IsSet Event
Event-set = hlevel ℕ_set

Observed-Short_example :
    (e : Observed Event 64 ≃ Short Event 64) × ((r : (r : Ring Event) × IsRing 64 r)
      → (e.0 (Quot.mk r)).0 ≡ contents 64 r.0)
Observed-Short_example = Observed-Short Event-set 64 (record { type = 0; data1 = 0; data2 = 0 })

abbrev key : ℕ → Event
key k = record { type = event_key; data1 = k; data2 = 0 }

-- 63 events wait.
abbrev nearly_full : Queues
nearly_full = record {
  events = record { queue = λ i. key i; head = 0; tail = 63 };
  inputs = record {
    queue = λ i. record { type = input_keyboard; data1 = i; data2 = 0; data3 = 0 };
    head = 0;
    tail = 0;
  };
  ticks = 0;
}

nearly_full-IsReady : IsReady nearly_full
nearly_full-IsReady = record {
  events_ok = record { head_in = omega arith; tail_in = omega arith };
  inputs_ok = record { head_in = omega arith; tail_in = omega arith };
}

event_push_overflow_run : (event_poll (event_push nearly_full (key 9))).0 ≡ none
event_push_overflow_run = event_push_overflow nearly_full (key 9) nearly_full-IsReady refl

abbrev quiet : Queues
quiet = record nearly_full { events = record { queue = λ i. key i; head = 5; tail = 6 } }

quiet-IsReady : IsReady quiet
quiet-IsReady = record {
  events_ok = record { head_in = omega arith; tail_in = omega arith };
  inputs_ok = record { head_in = omega arith; tail_in = omega arith };
}

keyboard_irq_handler_lem_example :
    let s' = keyboard_irq_handler 0 0 30 quiet in
    (waiting_events s' ≡ key 5 ∷ key 30 ∷ [])
    × (waiting_inputs s' ≡ record { type = input_keyboard; data1 = 30; data2 = 0; data3 = 0 } ∷ [])
    × (s'.ticks ≡ 0)
    × IsReady s'
keyboard_irq_handler_lem_example =
    keyboard_irq_handler_lem 0 0 30 quiet quiet-IsReady (omega arith) (omega arith)

-- A queue in which the text "hi" waits.
abbrev one_text : MessageQueue
one_text = record { msg = λ i. b'h' ∷ b'i' ∷ replicate 126 0; head = 4; tail = 5; count = 1 }

one_text-IsQueue : IsQueue one_text
one_text-IsQueue = record {
  head_in = omega arith;
  count_in = omega arith;
  tail_at = refl;
  buffers = λ i. refl;
  closed = λ i. omega arith;
}

ipc_send_lem_run :
    ((ipc_send one_text (b'y' ∷ b'o' ∷ [])).0 ≡ done)
    × (texts (ipc_send one_text (b'y' ∷ b'o' ∷ [])).1
        ≡ (b'h' ∷ b'i' ∷ []) ∷ (b'y' ∷ b'o' ∷ []) ∷ [])
    × IsQueue (ipc_send one_text (b'y' ∷ b'o' ∷ [])).1
ipc_send_lem_run = ipc_send_lem one_text (b'y' ∷ b'o' ∷ []) one_text-IsQueue (omega arith)

ipc_receive_lem_run :
    let r = ipc_receive one_text (replicate 128 1) in
    (r.0 ≡ done) × (until_nul r.1 ≡ b'h' ∷ b'i' ∷ []) × (texts r.2 ≡ []) × IsQueue r.2
ipc_receive_lem_run =
    ipc_receive_lem one_text (replicate 128 1) (b'h' ∷ b'i' ∷ []) [] one_text-IsQueue (omega arith)
      refl

abbrev no_text : MessageQueue
no_text = record one_text { tail = 4; count = 0 }

ipc_receive_none_run : ipc_receive no_text [] ≡ (failed, [], no_text)
ipc_receive_none_run =
    ipc_receive_none no_text []
      (record {
        head_in = omega arith;
        count_in = omega arith;
        tail_at = refl;
        buffers = λ i. refl;
        closed = λ i. omega arith;
      })
      refl

abbrev calls : List Call
calls =
    send (b'y' ∷ b'o' ∷ [])
    ∷ receive (replicate 128 1)
    ∷ receive (replicate 200 1)
    ∷ receive (replicate 128 0)
    ∷ []

answers-answers_texts_example :
    answers calls one_text
    ≡ sent done
      ∷ received done (b'h' ∷ b'i' ∷ [])
      ∷ received done (b'y' ∷ b'o' ∷ [])
      ∷ received failed []
      ∷ []
unfolding AllFit Fits answers_texts
answers-answers_texts_example =
    answers-answers_texts calls one_text one_text-IsQueue
      ((omega arith, (omega arith, tt)), (omega arith, (omega arith, (omega arith, tt))))
