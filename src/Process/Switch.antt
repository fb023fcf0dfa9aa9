-- ===== src/Process/Switch.antt =====
-- What `scheduler_switch` of process_manager/process.c, and the calls that end in it, leave behind.
use cocos_os.Base.{
  ℕ, ◌≡◌, ◌≢◌, sym, ap, ap₂, ◌∙◌, inl, inr, Bool, true, false, ◌&&◌, some, List, [], ◌∷◌, map,
  arith, leb, ◌==◌, if◌then◌else◌, Bool-cases, some_inj, add32,
}
use mathlib.Core.Path.{subst}
use cocos_os.Memory.{Addr}
use cocos_os.Process.{
  Process, ProcessState, waiting, running, is_sleeping, Processes, best_process, with_state,
  scheduler_switch, process_sleep, asleep, scheduler_tick, wake, kill_first, process_kill,
}

abbrev pub is_running : ProcessState → Bool
is_running running = true
is_running _ = false

-- Only the process at `a` may be running.
abbrev pub OnlyRuns : Addr → List Process → Type 0
OnlyRuns a [] = Unit
OnlyRuns a (p ∷ ps) = (is_running p.state ≡ true → p.address ≡ a) × OnlyRuns a ps

-- Every process at `a` is in a state.
abbrev pub StateAt : Addr → ProcessState → List Process → Type 0
StateAt a st [] = Unit
StateAt a st (p ∷ ps) = (p.address ≡ a → p.state ≡ st) × StateAt a st ps

address-with_state :
    (a : Addr) (st : ProcessState) (p : Process) → (with_state a st p).address ≡ p.address
address-with_state a st p = elim (Bool-cases (p.address == a)) [ inl e ↦ rw e | inr e ↦ rw e ]

state-with_state :
    (a : Addr) (st : ProcessState) (p : Process)
    → (with_state a st p).state ≡ (if p.address == a then st else p.state)
state-with_state a st p = elim (Bool-cases (p.address == a)) [ inl e ↦ rw e | inr e ↦ rw e ]

-- A process after the two writes of a switch.
abbrev switched : (old best : Addr) → Process → Process
switched old best p = with_state best running (with_state old waiting p)

address-switched : (old best : Addr) (p : Process) → (switched old best p).address ≡ p.address
address-switched old best p =
    address-with_state best running (with_state old waiting p) ∙ address-with_state old waiting p

state-switched :
    (old best : Addr) (p : Process)
    → (switched old best p).state
      ≡ (if p.address == best then running else if p.address == old then waiting else p.state)
state-switched old best p =
    state-with_state best running (with_state old waiting p)
    ∙ ap₂ (λ a st. if a == best then running else st) (address-with_state old waiting p)
        (state-with_state old waiting p)

runs_at_best :
    (x old best : Addr) (st : ProcessState)
    → (is_running st ≡ true → x ≡ old)
    → is_running (if x == best then running else if x == old then waiting else st) ≡ true
    → x ≡ best
runs_at_best x old best st g h = ground arith

waits_at_old :
    (x old best : Addr) (st : ProcessState)
    → old ≢ best
    → x ≡ old
    → (if x == best then running else if x == old then waiting else st) ≡ waiting
waits_at_old x old best st ne h = ground arith

-- After the two writes of a switch only the new process may be running.
OnlyRuns-switch :
    (old best : Addr) (ps : List Process)
    → OnlyRuns old ps
    → OnlyRuns best (map (with_state best running) (map (with_state old waiting) ps))
OnlyRuns-switch old best [] h = tt
OnlyRuns-switch old best (p ∷ ps) h = (
  λ r.
      address-switched old best p
      ∙ runs_at_best p.address old best p.state h.0
          (ap is_running (sym (state-switched old best p)) ∙ r),
  OnlyRuns-switch old best ps h.1,
)

-- They leave the old process waiting, whatever it was before.
StateAt-switch :
    (old best : Addr) (ps : List Process)
    → old ≢ best
    → StateAt old waiting (map (with_state best running) (map (with_state old waiting) ps))
StateAt-switch old best [] ne = tt
StateAt-switch old best (p ∷ ps) ne = (
  λ a.
      state-switched old best p
      ∙ waits_at_old p.address old best p.state ne (sym (address-switched old best p) ∙ a),
  StateAt-switch old best ps ne,
)

different : {a b : ℕ} → (a == b) ≡ false → b ≢ a
different h = ground arith

-- If no process but the current one is running, the same holds after `scheduler_switch`.
pub scheduler_switch-OnlyRuns :
    (s : Processes)
    → OnlyRuns s.current_process s.process_list
    → OnlyRuns (scheduler_switch s).1.current_process (scheduler_switch s).1.process_list
unfolding scheduler_switch
scheduler_switch-OnlyRuns s h =
    elim (Bool-cases (best_process s.process_list == s.current_process)) [
      | inl same ↦ rw same h
      | inr other ↦
          rw other
            (OnlyRuns-switch s.current_process (best_process s.process_list) s.process_list h)
    ]

-- Whenever `scheduler_switch` switches, the process it leaves is the current one and is waiting
-- afterwards, whatever its state was, and the current process is the one switched to.
pub scheduler_switch_waits :
    (s : Processes) (old best : Addr)
    → (scheduler_switch s).0 ≡ some (old, best)
    → (old ≡ s.current_process)
      × ((scheduler_switch s).1.current_process ≡ best)
      × StateAt old waiting (scheduler_switch s).1.process_list
unfolding scheduler_switch
scheduler_switch_waits s old best e =
    elim (Bool-cases (best_process s.process_list == s.current_process)) [
      | inl same ↦ cc (rw same at e)
      | inr other ↦
          (let pair = some_inj (rw other at e) in
            let from : s.current_process ≡ old = ap (λ (r : Addr × Addr). r.0) pair in
            rw other (
              sym from,
              ap (λ (r : Addr × Addr). r.1) pair,
              subst
                  (λ a. StateAt a waiting (
                    map (with_state (best_process s.process_list) running)
                      (map (with_state s.current_process waiting) s.process_list)))
                  from
                  (StateAt-switch s.current_process (best_process s.process_list) s.process_list
                    (different other)),
            ))
    ]

-- Whenever `process_sleep` switches, it leaves the caller, the current process, in the state
-- waiting and not sleeping.
pub process_sleep_waits :
    (ticks ms : ℕ) (s : Processes) (old best : Addr)
    → (process_sleep ticks s ms).0 ≡ some (old, best)
    → (old ≡ s.current_process) × StateAt old waiting (process_sleep ticks s ms).1.process_list
unfolding process_sleep
process_sleep_waits ticks ms s old best e =
    let (from, now, waits) =
      scheduler_switch_waits
        (record s { process_list = map (asleep s.current_process (add32 ticks ms)) s.process_list })
        old best e in
    (from, waits)

OnlyRuns-map :
    (f : Process → Process) (a : Addr) (ps : List Process)
    → ((p : Process) → (f p).address ≡ p.address)
    → ((p : Process) → is_running (f p).state ≡ true → is_running p.state ≡ true)
    → OnlyRuns a ps
    → OnlyRuns a (map f ps)
OnlyRuns-map f a [] same less h = tt
OnlyRuns-map f a (p ∷ ps) same less h =
    (λ r. same p ∙ h.0 (less p r), OnlyRuns-map f a ps same less h.1)

OnlyRuns-kill_first :
    (pid : ℕ) (a : Addr) (ps : List Process) → OnlyRuns a ps → OnlyRuns a (kill_first pid ps)
unfolding kill_first
OnlyRuns-kill_first pid a [] h = tt
OnlyRuns-kill_first pid a (p ∷ ps) h = elim (Bool-cases (p.pid == pid)) [
  | inl found ↦ rw found (λ r. cc r, h.1)
  | inr other ↦ rw other (h.0, OnlyRuns-kill_first pid a ps h.1)
]

pub process_kill-OnlyRuns :
    (s : Processes) (pid : ℕ)
    → OnlyRuns s.current_process s.process_list
    → OnlyRuns (process_kill s pid).current_process (process_kill s pid).process_list
unfolding process_kill
process_kill-OnlyRuns s pid h = OnlyRuns-kill_first pid s.current_process s.process_list h

pub scheduler_tick-OnlyRuns :
    (ticks : ℕ) (s : Processes)
    → OnlyRuns s.current_process s.process_list
    → OnlyRuns (scheduler_tick ticks s).1.current_process (scheduler_tick ticks s).1.process_list
unfolding scheduler_tick
scheduler_tick-OnlyRuns ticks s h =
    scheduler_switch-OnlyRuns _
      (OnlyRuns-map (wake ticks) s.current_process s.process_list wake_address wake_less h)
  where
    wake_address : (p : Process) → (wake ticks p).address ≡ p.address
    wake_address p = elim (Bool-cases (is_sleeping p.state && leb p.wakeup_tick ticks)) [
      | inl e ↦ rw e
      | inr e ↦ rw e
    ]

    wake_less : (p : Process) → is_running (wake ticks p).state ≡ true → is_running p.state ≡ true
    wake_less p = elim (Bool-cases (is_sleeping p.state && leb p.wakeup_tick ticks)) [
      | inl e ↦ rw e (λ r. cc r)
      | inr e ↦ rw e (λ r. r)
    ]

-- `process_sleep` keeps it true that no process but the current one is running.
pub process_sleep-OnlyRuns :
    (ticks ms : ℕ) (s : Processes)
    → OnlyRuns s.current_process s.process_list
    → OnlyRuns
        (process_sleep ticks s ms).1.current_process
        (process_sleep ticks s ms).1.process_list
unfolding process_sleep
process_sleep-OnlyRuns ticks ms s h = scheduler_switch-OnlyRuns _ (
    OnlyRuns-map (asleep s.current_process (add32 ticks ms)) s.current_process s.process_list
      sleep_address sleep_less h)
  where
    sleep_address :
        (p : Process) → (asleep s.current_process (add32 ticks ms) p).address ≡ p.address
    sleep_address p = elim (Bool-cases (p.address == s.current_process)) [
      | inl e ↦ rw e
      | inr e ↦ rw e
    ]

    sleep_less :
        (p : Process)
        → is_running (asleep s.current_process (add32 ticks ms) p).state ≡ true
        → is_running p.state ≡ true
    sleep_less p = elim (Bool-cases (p.address == s.current_process)) [
      | inl e ↦ rw e (λ r. cc r)
      | inr e ↦ rw e (λ r. r)
    ]
