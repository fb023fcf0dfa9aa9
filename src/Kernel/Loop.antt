-- ===== src/Kernel/Loop.antt =====
-- The main loop of kernel/kernel.c handles the events that wait.
use cocos_os.Base.{
  ℕ, zero, suc, ◌+◌, ◌<◌, ◌≡◌, refl, sym, ap, ◌∙◌, inl, inr, Option, some, List, [], ◌∷◌, ◌++◌,
  arith, ◌==◌, length, length-append, length-items, pending, pending_lt, Bool-cases,
}
use mathlib.Core.List.{append_assoc, append-nil}
use cocos_os.Ring.Lossy
use cocos_os.Ring.Refine.{poll-IsRing, push-IsRing, poll_refines, push_refines}
use cocos_os.Events.{
  Event, event_key, event_mouse, event_queue_size, Queues, event_push, event_poll,
}
use cocos_os.Events.Delivery.{IsReady, waiting_events, push_short}
use cocos_os.Kernel.{
  Action, terminal_handle_key, mouse_handle, display_write_char, Round, arrive, show_key, handle,
  handle_events, after_poll, run_userspace,
}

event_poll-IsReady : (s : Queues) → IsReady s → IsReady (event_poll s).1
unfolding event_poll
event_poll-IsReady s h = record {
  events_ok = poll-IsRing event_queue_size s.events h.events_ok;
  inputs_ok = h.inputs_ok;
}

event_push-IsReady : (s : Queues) (e : Event) → IsReady s → IsReady (event_push s e)
unfolding event_push
event_push-IsReady s e h = record {
  events_ok = push-IsRing event_queue_size s.events e h.events_ok;
  inputs_ok = h.inputs_ok;
}

event_poll_refines :
    (s : Queues)
    → IsReady s
    → ((event_poll s).0, waiting_events (event_poll s).1) ≡ Lossy.poll (waiting_events s)
unfolding event_poll
event_poll_refines s h = poll_refines event_queue_size s.events h.events_ok

waiting_lt : (s : Queues) → IsReady s → length (waiting_events s) < 64
waiting_lt s h = omega (
  arith,
  length-items s.events.queue event_queue_size s.events.head
      (pending event_queue_size s.events.head s.events.tail),
  pending_lt event_queue_size s.events.head s.events.tail h.events_ok.head_in h.events_ok.tail_in,
)

event_push_refines :
    (s : Queues) (e : Event)
    → IsReady s
    → length (waiting_events s) + 1 < 64
    → waiting_events (event_push s e) ≡ waiting_events s ++ (e ∷ [])
unfolding event_push
event_push_refines s e h room =
    push_refines event_queue_size s.events e h.events_ok
    ∙ push_short event_queue_size (waiting_events s) e room

-- Events that arrive while there is room wait in their order.
arrive_lem :
    (es : List Event) (s : Queues) (q : List Event)
    → IsReady s
    → waiting_events s ≡ q
    → length q + length es < 64
    → (waiting_events (arrive es s) ≡ q ++ es) × IsReady (arrive es s)
unfolding arrive
arrive_lem [] s q h e room = (e ∙ sym (append-nil q), h)
arrive_lem (v ∷ es) s q h e room =
    let same = ap length e in
    let pushed = event_push_refines s v h (omega arith) ∙ ap (λ t. t ++ (v ∷ [])) e in
    let (waits, ready) =
      arrive_lem es (event_push s v) (q ++ (v ∷ [])) (event_push-IsReady s v h) pushed
        (omega (arith, length-append q (v ∷ []))) in
    (waits ∙ append_assoc q (v ∷ []) es, ready)

module _ (data_field : Event → ℕ) where
  -- What is done with some events, in their order.
  abbrev pub handle_all : List Event → List Action
  handle_all [] = []
  handle_all (e ∷ es) = handle data_field e ++ handle_all es

  -- The two cases of a poll, by what waits.
  poll_cases :
      (s : Queues) (q : List Event)
      → IsReady s
      → waiting_events s ≡ q
      → ((event_poll s).0, waiting_events (event_poll s).1) ≡ Lossy.poll q
  poll_cases s q h e = event_poll_refines s h ∙ ap Lossy.poll e

  drain :
      (fuel : ℕ) (s : Queues) (q : List Event)
      → IsReady s
      → waiting_events s ≡ q
      → length q < fuel
      → (s' : Queues) × (handle_events data_field fuel s ≡ some (handle_all q, s'))
        × (waiting_events s' ≡ [])
        × IsReady s'
  unfolding handle_events Lossy.poll
  drain zero s q h e lt = elim lt [ ]
  drain (suc fuel) s [] h e lt =
      let polled = poll_cases s [] h e in
      let nothing = ap (λ (o : Option Event × List Event). o.0) polled in
      (
        (event_poll s).1,
        rw (nothing, handle_events),
        ap (λ (o : Option Event × List Event). o.1) polled,
        event_poll-IsReady s h,
      )
  drain (suc fuel) s (v ∷ q) h e lt =
      let polled = poll_cases s (v ∷ q) h e in
      let first = ap (λ (o : Option Event × List Event). o.0) polled in
      let rest = ap (λ (o : Option Event × List Event). o.1) polled in
      let (s', done, empty, ready) =
        drain fuel (event_poll s).1 q (event_poll-IsReady s h) rest (omega arith) in
      (s', rw (first, handle_events, done), empty, ready)

  -- While no interrupt comes, the inner loop of `kernel_run_userspace` ends: from a queue of events that is
  -- well formed, 64 rounds handle exactly the events that wait, oldest first, and leave none.
  pub handle_events_lem :
      (s : Queues)
      → IsReady s
      → (s' : Queues) × (handle_events data_field 64 s ≡ some (handle_all (waiting_events s), s'))
        × (waiting_events s' ≡ [])
        × IsReady s'
  handle_events_lem s h = drain 64 s (waiting_events s) h refl (waiting_lt s h)

  -- In each round fewer than 64 events wait once those that arrive have come.
  abbrev pub Room : List Round → List Event → Type 0
  Room [] q = Unit
  Room (r ∷ rs) q = (length q + length r.arrived < 64) × Room rs (Lossy.poll (q ++ r.arrived)).1

  abbrev pub arrivals : List Round → List Event
  arrivals [] = []
  arrivals (r ∷ rs) = r.arrived ++ arrivals rs

  -- The calls that events lead to, without the characters of `keyboard_read`.
  abbrev pub of_events : List Action → List Action
  of_events [] = []
  of_events (terminal_handle_key k ∷ acts) = terminal_handle_key k ∷ of_events acts
  of_events (mouse_handle x y ∷ acts) = mouse_handle x y ∷ of_events acts
  of_events (display_write_char c p ∷ acts) = of_events acts

  of_events-handle :
      (e : Event) (acts : List Action)
      → of_events (handle data_field e ++ acts) ≡ handle data_field e ++ of_events acts
  unfolding handle
  of_events-handle e acts = elim (Bool-cases (e.type == event_key)) [
    | inl is_key ↦ rw is_key
    | inr other ↦ elim (Bool-cases (e.type == event_mouse)) [
      | inl is_mouse ↦ rw (other, is_mouse)
      | inr none_left ↦ rw (other, none_left)
    ]
  ]

  of_events-show_key :
      (c : ℕ) (acts : List Action) → of_events (show_key c ++ acts) ≡ of_events acts
  of_events-show_key c acts = elim (Bool-cases (c == 0)) [ inl z ↦ rw z | inr n ↦ rw n ]

  -- A round handles the first event that waits, and the rest is left to the later rounds.
  round_lem :
      (key : ℕ) (s : Queues) (q late : List Event) (rest : List Action) (last : List Action)
      → IsReady s
      → waiting_events s ≡ q
      → of_events rest ++ last ≡ handle_all ((Lossy.poll q).1 ++ late)
      → of_events (after_poll data_field (event_poll s).0 key ++ rest) ++ last
        ≡ handle_all (q ++ late)
  unfolding Lossy.poll after_poll
  round_lem key s [] late rest last h e ih =
      let nothing = ap (λ (o : Option Event × List Event). o.0) (poll_cases s [] h e) in
      ap (λ o. of_events (after_poll data_field o key ++ rest) ++ last) nothing
      ∙ ap (λ acts. acts ++ last) (of_events-show_key key rest)
      ∙ ih
  round_lem key s (v ∷ q) late rest last h e ih =
      let first = ap (λ (o : Option Event × List Event). o.0) (poll_cases s (v ∷ q) h e) in
      ap (λ o. of_events (after_poll data_field o key ++ rest) ++ last) first
      ∙ ap (λ acts. acts ++ last) (of_events-handle v rest)
      ∙ append_assoc (handle data_field v) (of_events rest) last
      ∙ ap (λ acts. handle data_field v ++ acts) ih

  conserved :
      (rs : List Round) (s : Queues) (q : List Event)
      → IsReady s
      → waiting_events s ≡ q
      → Room rs q
      → let (acts, s') = run_userspace data_field rs s in
        of_events acts ++ handle_all (waiting_events s') ≡ handle_all (q ++ arrivals rs)
  unfolding run_userspace
  conserved [] s q h e room = ap handle_all (e ∙ sym (append-nil q))
  conserved (r ∷ rs) s q h e room =
      let (waits, ready) = arrive_lem r.arrived s q h e room.0 in
      let s1 = arrive r.arrived s in
      let left = ap (λ (o : Option Event × List Event). o.1) (poll_cases s1 _ ready waits) in
      let ih = conserved rs (event_poll s1).1 _ (event_poll-IsReady s1 ready) left room.1 in
      round_lem r.key s1 (q ++ r.arrived) (arrivals rs)
        (run_userspace data_field rs (event_poll s1).1).0
        (handle_all (waiting_events (run_userspace data_field rs (event_poll s1).1).1)) ready waits
        ih
      ∙ ap handle_all (append_assoc q r.arrived (arrivals rs))

  -- As long as fewer than 64 events wait in each round, the main loop loses none and mixes none up: what it
  -- has called for events, followed by what the events that still wait will lead to, is what the events
  -- that waited at the start and those that arrived lead to, in their order.
  pub run_userspace_conserves :
      (rs : List Round) (s : Queues)
      → IsReady s
      → Room rs (waiting_events s)
      → of_events (run_userspace data_field rs s).0
          ++ handle_all (waiting_events (run_userspace data_field rs s).1)
        ≡ handle_all (waiting_events s ++ arrivals rs)
  run_userspace_conserves rs s h room = conserved rs s (waiting_events s) h refl room
