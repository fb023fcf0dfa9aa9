-- ===== src/Process/Reach.antt =====
-- The states that the calls of process_manager/process.c lead to.
use cocos_os.Base.{ℕ, ◌≡◌, refl, ap, Text, ok, ok_inj, bind_ok}
use mathlib.Core.Path.{subst}
use cocos_os.Memory.{Addr}
use cocos_os.Paging.{allocate, paging_create_directory}
use cocos_os.Process.{
  Processes, process_init, process_create, process_kill, process_sleep, process_yield,
  scheduler_tick, process_bytes, process_stack_size, current_pid,
}
use cocos_os.Process.Switch.{
  OnlyRuns, scheduler_switch-OnlyRuns, process_kill-OnlyRuns, process_sleep-OnlyRuns,
  scheduler_tick-OnlyRuns,
}

-- A call that returns, with its arguments and the clock.
pub data Step : Processes → Processes → Type 0 where
  create :
      (s s' : Processes) (entry_point : Addr) (name : Text) (priority pid : ℕ)
      → process_create s entry_point name priority ≡ ok (pid, s')
      → Step s s'
  kill : (s : Processes) (pid : ℕ) → Step s (process_kill s pid)
  sleep : (ticks ms : ℕ) (s : Processes) → Step s (process_sleep ticks s ms).1
  yield : (s : Processes) → Step s (process_yield s).1
  tick : (ticks : ℕ) (s : Processes) → Step s (scheduler_tick ticks s).1

-- The states after `process_init` and any calls.
pub data Reachable : Processes → Type 0 where
  boot : (s s' : Processes) → process_init s ≡ ok s' → Reachable s'
  next : {s t : Processes} → Reachable s → Step s t → Reachable t

abbrev pub Sound : Processes → Type 0
Sound s = OnlyRuns s.current_process s.process_list

pub process_init-Sound : (s s' : Processes) → process_init s ≡ ok s' → Sound s'
unfolding process_init
process_init-Sound s s' e =
    let ((a, m1), _, e1) = bind_ok (allocate s.paging process_bytes) _ e in
    let ((dir, m2), _, e2) = bind_ok (paging_create_directory m1) _ e1 in
    subst Sound (ok_inj e2) (λ r. refl, tt)

process_create-Sound :
    (s s' : Processes) (entry_point : Addr) (name : Text) (priority pid : ℕ)
    → process_create s entry_point name priority ≡ ok (pid, s')
    → Sound s
    → Sound s'
unfolding process_create
process_create-Sound s s' entry_point name priority pid e h =
    let ((a, m1), _, e1) = bind_ok (allocate s.paging process_bytes) _ e in
    let (ppid, _, e2) = bind_ok (current_pid s) _ e1 in
    let ((dir, m2), _, e3) = bind_ok (paging_create_directory m1) _ e2 in
    let ((stack, m3), _, e4) = bind_ok (allocate m2 process_stack_size) _ e3 in
    subst Sound (ap (λ (r : ℕ × Processes). r.1) (ok_inj e4)) (λ r. cc r, h)

pub Step-Sound : {s t : Processes} → Step s t → Sound s → Sound t
Step-Sound (create s s' entry_point name priority pid e) h =
    process_create-Sound s s' entry_point name priority pid e h
Step-Sound (kill s pid) h = process_kill-OnlyRuns s pid h
Step-Sound (sleep ticks ms s) h = process_sleep-OnlyRuns ticks ms s h
Step-Sound (yield s) h = scheduler_switch-OnlyRuns s h
Step-Sound (tick ticks s) h = scheduler_tick-OnlyRuns ticks s h

-- Whatever calls follow `process_init`, no process but the current one is in the state running.
pub Reachable-OnlyRuns : {s : Processes} → Reachable s → OnlyRuns s.current_process s.process_list
Reachable-OnlyRuns (boot s s' e) = process_init-Sound s s' e
Reachable-OnlyRuns (next r st) = Step-Sound st (Reachable-OnlyRuns r)
