-- ===== src/Kernel.antt =====
-- kernel/kernel.c: the order in which the kernel starts, and its main loop. A call of a function that
-- no C file of the repository defines is recorded by its name.
pub mod Loop
use cocos_os.Base.{
  ℕ, zero, suc, ◌*◌, ◌^◌, Bool, true, false, Option, none, some, List, [], ◌∷◌, ◌++◌, ◌==◌,
  if◌then◌else◌, Text, codes,
}
use cocos_os.Events.{Event, event_key, event_mouse, event_timer, Queues, event_push, event_poll}

-- What the loop calls: `terminal_handle_key(e.data1)`, `mouse_handle(e.data, e.data2)` and
-- `display_write_char(c, 0)`.
pub data Action : Type 0 where
  terminal_handle_key : ℕ → Action
  mouse_handle : ℕ → ℕ → Action
  display_write_char : ℕ → ℕ → Action

-- What comes from outside in a round: the events that interrupts push before the next poll, and what
-- `keyboard_read` answers.
pub record Round : Type 0 where
  pub arrived : List Event
  pub key : ℕ

unfoldable pub arrive : List Event → Queues → Queues
arrive [] s = s
arrive (e ∷ es) s = arrive es (event_push s e)

-- The end of the outer loop's body.
abbrev pub show_key : ℕ → List Action
show_key c = if c == 0 then [] else display_write_char c 0 ∷ []

module _ (data_field : Event → ℕ) where
  -- The `switch`. `event_t` has no field `data`: what the call is given for it is an argument.
  unfoldable pub handle : Event → List Action
  handle e =
      if e.type == event_key
      then terminal_handle_key e.data1 ∷ []
      else if e.type == event_mouse
      then mouse_handle (data_field e) e.data2 ∷ []
      else []

  -- The inner loop while nothing arrives, with fuel; `none` means that it ran out.
  unfoldable pub handle_events : (fuel : ℕ) → Queues → Option (List Action × Queues)
  unfolding handle
  handle_events zero s = none
  handle_events (suc fuel) s =
      let (polled, s') = event_poll s in
      elim polled [
        | none ↦ some ([], s')
        | some e ↦ elim (handle_events fuel s') [
          | none ↦ none
          | some (done, s'') ↦ some (handle e ++ done, s'')
        ]
      ]

  -- The body of both loops after a poll.
  unfoldable pub after_poll : Option Event → ℕ → List Action
  unfolding handle
  after_poll none key = show_key key
  after_poll (some e) key = handle e

  -- `kernel_run_userspace` for some rounds, each a poll and what follows it.
  unfoldable pub run_userspace : List Round → Queues → List Action × Queues
  unfolding arrive after_poll
  run_userspace [] s = ([], s)
  run_userspace (r ∷ rs) s =
      let (polled, s1) = event_poll (arrive r.arrived s) in
      let (rest, s2) = run_userspace rs s1 in (after_poll polled r.key ++ rest, s2)
