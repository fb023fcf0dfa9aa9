-- ===== src/Scheduler.antt =====
-- scheduler/scheduler.c and scheduler.h: tasks in a circle of `next` pointers, and the task that runs.
-- A call of `context_switch` is a result: the task that is left and the stack pointer passed.
pub mod Circle
pub mod Fair
use cocos_os.Base.{ℕ, zero, suc, Option, none, some, List, [], ◌∷◌, ◌==◌, if◌then◌else◌, update}
use cocos_os.Memory.{Addr, null}

-- The fields of `task_t` by the task's address, and `current`.
pub record Tasks : Type 0 where
  pub esp : Addr → ℕ
  pub next : Addr → Addr
  pub current : Addr

unfoldable pub scheduler_add : Tasks → Addr → Tasks
scheduler_add s task =
    if s.current == null
    then record s { current = task; next = update s.next task task }
    else record s { next = update (update s.next task (s.next s.current)) s.current task }

unfoldable pub scheduler_tick : Tasks → Option (Addr × ℕ) × Tasks
scheduler_tick s =
    if s.current == null
    then (none, s)
    else (let prev = s.current in
        let now = s.next s.current in (some (prev, s.esp now), record s { current = now }))

-- The task that runs after each of some ticks.
unfoldable pub tasks_run : ℕ → Tasks → List Addr
unfolding scheduler_tick
tasks_run zero s = []
tasks_run (suc k) s = let s' = (scheduler_tick s).1 in s'.current ∷ tasks_run k s'
