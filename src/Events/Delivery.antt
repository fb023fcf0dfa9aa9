-- ===== src/Events/Delivery.antt =====
-- What the handlers of timer/timer.c, kernel/drivers/keyboard/keyboard.c and
-- kernel/drivers/mouse/mouse.c deliver through the queues of event.c and input.c.
use cocos_os.Base.{
  ℕ, ◌+◌, ◌<◌, ◌≡◌, ◌≢◌, refl, ap, ◌∙◌, Option, none, List, [], ◌∷◌, ◌++◌, arith, length, ==_of_ne,
}
use cocos_os.Ring
use cocos_os.Ring.{Ring}
use cocos_os.Ring.Lossy
use cocos_os.Ring.Refine.{IsRing, contents, push-IsRing, push_refines, poll_refines}
use cocos_os.Events.{
  Event, event_key, event_queue_size, input_keyboard, InputEvent, input_queue_size, Queues,
  event_push, event_poll, keyboard_irq_handler,
}

-- Both queues have their indices in range.
pub record IsReady (s : Queues) : Type 0 where
  pub events_ok : IsRing event_queue_size s.events
  pub inputs_ok : IsRing input_queue_size s.inputs

abbrev pub waiting_events : Queues → List Event
waiting_events s = contents event_queue_size s.events

abbrev pub waiting_inputs : Queues → List InputEvent
waiting_inputs s = contents input_queue_size s.inputs

pub push_short {ℓ} :
    {A : Type ℓ} (size : ℕ) (q : List A) (e : A)
    → length q + 1 < size
    → Lossy.push size q e ≡ q ++ (e ∷ [])
unfolding Lossy.push
push_short size q e h = let ne : length q + 1 ≢ size = omega arith in rw (==_of_ne ne)

-- When 63 events wait, the next poll after one more push finds the queue empty.
pub event_push_overflow :
    (s : Queues) (e : Event)
    → IsReady s
    → length (waiting_events s) ≡ 63
    → (event_poll (event_push s e)).0 ≡ none
unfolding event_poll event_push Lossy.poll
event_push_overflow s e h full =
    let empty : contents event_queue_size (Ring.push event_queue_size s.events e) ≡ [] =
      push_refines event_queue_size s.events e h.events_ok ∙ push_full in
    let polled =
      poll_refines event_queue_size (Ring.push event_queue_size s.events e)
        (push-IsRing event_queue_size s.events e h.events_ok) in
    ap (λ (o : Option Event × List Event). o.0) (polled ∙ ap Lossy.poll empty)
  where
    push_full : Lossy.push event_queue_size (waiting_events s) e ≡ []
    push_full = unfold Lossy.push in rw full

-- While fewer than 63 entries wait in each queue, a key press puts its scancode at the end of
-- both, keeps the ticks, and leaves both queues well formed.
pub keyboard_irq_handler_lem :
    (rest2 rest3 scancode : ℕ) (s : Queues)
    → IsReady s
    → length (waiting_events s) < 63
    → length (waiting_inputs s) < 63
    → let s' = keyboard_irq_handler rest2 rest3 scancode s in
      (waiting_events s'
        ≡ waiting_events s ++ (record { type = event_key; data1 = scancode; data2 = 0 } ∷ []))
      × (waiting_inputs s'
          ≡ waiting_inputs s
            ++ (record { type = input_keyboard; data1 = scancode; data2 = rest2; data3 = rest3 }
                ∷ []))
      × (s'.ticks ≡ s.ticks)
      × IsReady s'
unfolding keyboard_irq_handler
keyboard_irq_handler_lem rest2 rest3 scancode s h room1 room2 = (
  push_refines event_queue_size s.events _ h.events_ok
      ∙ push_short event_queue_size _ _ (omega arith),
  push_refines input_queue_size s.inputs _ h.inputs_ok
      ∙ push_short input_queue_size _ _ (omega arith),
  refl,
  record {
    events_ok = push-IsRing event_queue_size s.events _ h.events_ok;
    inputs_ok = push-IsRing input_queue_size s.inputs _ h.inputs_ok;
  },
)
