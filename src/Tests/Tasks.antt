-- ===== src/Tests/Tasks.antt =====
-- The schedulers of process_manager/process.c, process_manager/process_manager.c and
-- scheduler/scheduler.c at small inputs.
use cocos_os.Base.{
  ok, panicked, fault, ℕ, ◌+◌, ◌<◌, ◌≤◌, ◌^◌, ◌≡◌, refl, ◌⊎◌, true, false, none, some, List, [],
  ◌∷◌, arith, ◌==◌, if◌then◌else◌,
}
use cocos_os.Memory.{Addr, null, header, memory_init, memory_alloc}
use cocos_os.Memory.Blocks.{Block, block}
use cocos_os.Memory.Lifecycle.{start-Kept}
use cocos_os.Paging.{Paging, zero_entry}
use cocos_os.Process.{
  process_at, process_get_pid, process_init, process_create, process_kill, Process, ProcessState,
  waiting, running, is_waiting, Processes, zero_process, best_process, scheduler_switch,
  process_sleep,
}
use cocos_os.Process.Pick.{In, best_process_lem}
use cocos_os.Process.Reach.{boot, next, create, sleep, kill, Reachable-OnlyRuns}
use cocos_os.Process.Secure.{Secure}
use cocos_os.Process.Life.{Life, obtain, Life-Secure}
use cocos_os.Process.Switch.{OnlyRuns, StateAt, scheduler_switch_waits, process_sleep_waits}
use cocos_os.Scheduler
use cocos_os.Scheduler.Fair
use cocos_os.Scheduler.Fair.{Reach-tasks_run}
use cocos_os.Memory.Counts.{times}
use cocos_os.Scheduler.{Tasks, scheduler_add, tasks_run}
use cocos_os.Scheduler.Circle.{IsCircle, tasks_run_round, scheduler_add-IsCircle}
use cocos_os.ProcessTable
use cocos_os.ProcessTable.{
  Table, Slot, zero_slot, minus_one, create_process, kill_process, tick_from,
}
use cocos_os.ProcessTable.Tick.{
  KeepsCount, scheduler_tick_enough, waiting_funcs, call_all, scheduler_tick-call_all,
}
use cocos_os.ProcessTable.Slots.{create_process_lem, create_process-kill_process_full}

abbrev memory : Paging
memory = record {
  heap = record { cell = λ _. header 0 false 0; heap_start = 0; heap_end = 0 };
  frame_bitmap = λ _. 0;
  total_frames = 0;
  used_frames = 0;
  kernel_directory = 0;
  directories = λ _. record { entries = λ _. 0; tables_virtual = λ _. 0; physical_address = 0 };
  tables = λ _ _. zero_entry;
  loaded = 0;
  enabled = false;
}

abbrev at_priority : Addr → ℕ → ProcessState → ℕ → Process
at_priority a n st k =
    let p : Process = zero_process a in record p { pid = n; state = st; priority = k }

-- Two processes wait, and the second has the lower number; the third runs.
abbrev three : List Process
three =
    at_priority 100 3 waiting 20 ∷ at_priority 200 2 waiting 5 ∷ at_priority 300 1 running 1 ∷ []

abbrev busy : Processes
busy = record { process_list = three; current_process = 300; next_pid = 4; paging = memory }

best_process_lem_example :
    ((best_process three ≡ 100)
      × ((q : Process) → In q three → is_waiting q.state ≡ true → 255 ≤ q.priority))
    ⊎ ((p : Process) × In p three
        × (is_waiting p.state ≡ true)
        × (p.priority < 255)
        × (best_process three ≡ p.address)
        × ((q : Process) → In q three → is_waiting q.state ≡ true → p.priority ≤ q.priority))
best_process_lem_example = best_process_lem three

busy_switches : (scheduler_switch busy).0 ≡ some (300, 200)
unfolding scheduler_switch
busy_switches = refl

scheduler_switch_waits_run :
    (300 ≡ busy.current_process)
    × ((scheduler_switch busy).1.current_process ≡ 200)
    × StateAt 300 waiting (scheduler_switch busy).1.process_list
scheduler_switch_waits_run = scheduler_switch_waits busy 300 200 busy_switches

busy_sleeps : (process_sleep 10 busy 50).0 ≡ some (300, 200)
unfolding process_sleep
busy_sleeps = refl

process_sleep_waits_run :
    (300 ≡ busy.current_process) × StateAt 300 waiting (process_sleep 10 busy 50).1.process_list
process_sleep_waits_run = process_sleep_waits 10 50 busy 300 200 busy_sleeps

-- Before `process_init`, with a heap of 12000 bytes.
abbrev off : Processes
off = record {
  process_list = [];
  current_process = null;
  next_pid = 1;
  paging = record memory { heap = memory_init (λ _. header 0 false 0) 4096 12000 };
}

abbrev booted : Processes
booted = elim (process_init off) [ ok s ↦ s | panicked ↦ off | fault ↦ off ]

boot_off : process_init off ≡ ok booted
unfolding process_init memory_init memory_alloc
boot_off = refl

Reachable-OnlyRuns_run :
    let s = (process_sleep 10 (process_kill booted 0) 5).1 in
    OnlyRuns s.current_process s.process_list
Reachable-OnlyRuns_run =
    Reachable-OnlyRuns {s = (process_sleep 10 (process_kill booted 0) 5).1}
      (next (next (boot off booted boot_off) (kill booted 0)) (sleep 10 5 (process_kill booted 0)))

-- A heap that holds two directories and a stack.
abbrev large : Processes
large = record booted {
  paging = record memory { heap = memory_init (λ _. header 0 false 0) 4096 300000 };
}

abbrev spawned : Processes
spawned = elim (process_create large 5000 (b's' ∷ b'h' ∷ []) 3) [
  | ok (n, s) ↦ s
  | panicked ↦ off
  | fault ↦ off
]

-- From the start in a heap that holds two directories, a stack and another's payload.
abbrev started : Processes
started = record off {
  paging = record memory { heap = memory_init (λ _. header 0 false 0) 4096 300000 };
}

abbrev idling : Processes
idling = elim (process_init started) [ ok s ↦ s | panicked ↦ started | fault ↦ started ]

boot_started : process_init started ≡ ok idling
unfolding process_init memory_init memory_alloc
boot_started = refl

abbrev more : Paging
more = elim (memory_alloc idling.paging.heap 100) [
  | none ↦ idling.paging
  | some (p, h) ↦ record idling.paging { heap = h }
]

more_given : memory_alloc idling.paging.heap 100 ≡ some (12476, more.heap)
unfolding process_init memory_init memory_alloc
more_given = refl

abbrev shared : Processes
shared = record idling { paging = more }

abbrev two : Processes
two = elim (process_create shared 5000 (b's' ∷ b'h' ∷ []) 3) [
  | ok (n, s) ↦ s
  | panicked ↦ shared
  | fault ↦ shared
]

create_two : process_create shared 5000 (b's' ∷ b'h' ∷ []) 3 ≡ ok (1, two)
unfolding process_create process_init memory_init memory_alloc
create_two = refl

pids_left : shared.next_pid + 1 < 2 ^ 32
unfolding process_init memory_init memory_alloc
pids_left = omega arith

pids_left_two : two.next_pid + 1 < 2 ^ 32
unfolding process_create process_init memory_init memory_alloc
pids_left_two = omega arith

Life-Secure_example :
    let s = (process_sleep 10 two 5).1 in
    ((cs : List Block) × Secure 4096 304096 (12476 ∷ []) s cs)
    × OnlyRuns s.current_process s.process_list
    × ((p : Process) × (process_at s.current_process s.process_list ≡ some p)
        × (process_get_pid s ≡ ok p.pid))
Life-Secure_example =
    Life-Secure 4096 304096 started [] (block 299988 false ∷ []) (12476 ∷ [])
      (process_sleep 10 two 5).1
      (record {
        kept =
            start-Kept (λ _. header 0 false 0) 4096 300000 (omega arith) (omega arith)
              (omega arith);
        once = λ q. omega arith;
      })
      (omega arith)
      (Life.call
        (Life.call
          (obtain 100 12476 more (Life.boot idling boot_started) (omega arith) more_given
            (omega arith))
          pids_left (create shared two 5000 (b's' ∷ b'h' ∷ []) 3 1 create_two))
        pids_left_two (sleep 10 5 two))

-- The task at 1 runs, and those at 2 and 3 follow.
abbrev tasks : Tasks
tasks = record {
  esp = λ a. a;
  next = λ a. if a == 1 then 2 else if a == 2 then 3 else 1;
  current = 1;
}

tasks-IsCircle : IsCircle tasks (2 ∷ 3 ∷ [])
tasks-IsCircle = record {
  current_task = omega arith;
  others = (omega arith, (omega arith, tt));
  apart = (omega arith, (omega arith, tt));
  round = (refl, (refl, refl));
}

tasks_run_round_run : tasks_run 3 tasks ≡ 2 ∷ 3 ∷ 1 ∷ []
tasks_run_round_run = tasks_run_round tasks (2 ∷ 3 ∷ []) tasks-IsCircle

scheduler_add-IsCircle_run : IsCircle (scheduler_add tasks 7) (7 ∷ 2 ∷ 3 ∷ [])
scheduler_add-IsCircle_run =
    scheduler_add-IsCircle tasks 7 (2 ∷ 3 ∷ []) tasks-IsCircle (omega arith) (omega arith)
      (omega arith, (omega arith, tt))

-- From no task: 5 and 6 are added, a tick passes, and 7 is added.
abbrev no_tasks : Tasks
no_tasks = record { esp = λ a. a; next = λ _. null; current = null }

abbrev three_tasks : Tasks
three_tasks =
    scheduler_add (Scheduler.scheduler_tick (scheduler_add (scheduler_add no_tasks 5) 6)).1 7

Reach-tasks_run_example : times 6 (tasks_run 3 three_tasks) ≡ times 6 (7 ∷ 6 ∷ 5 ∷ [])
Reach-tasks_run_example = Reach-tasks_run no_tasks (7 ∷ 6 ∷ 5 ∷ []) three_tasks 6 (
    Fair.add 7
      (Fair.tick (Fair.add 6 (Fair.add 5 (Fair.here refl) (omega arith) refl) (omega arith) refl))
      (omega arith) refl)

-- The turns that follow.
tasks_run_turns : tasks_run 3 three_tasks ≡ 7 ∷ 5 ∷ 6 ∷ []
unfolding tasks_run scheduler_add Scheduler.scheduler_tick
tasks_run_turns = refl

abbrev table : ℕ → Table
table n = record {
  process_table = λ i. record { pid = i; state = ProcessTable.waiting; func = 1000 + i };
  process_count = n;
}

create_process_lem_run :
    ((create_process (table 2) 5).0 ≡ 2)
    × ((create_process (table 2) 5).1.process_count ≡ 3)
    × ((i : ℕ)
        → (create_process (table 2) 5).1.process_table i ≡ (
            if i == 2
            then record { pid = 2; state = ProcessTable.waiting; func = 5 }
            else (table 2).process_table i))
create_process_lem_run = create_process_lem (table 2) 5 (omega arith)

create_process-kill_process_full_run :
    create_process (kill_process (table 10) 4) 5 ≡ (minus_one, kill_process (table 10) 4)
create_process-kill_process_full_run = create_process-kill_process_full (table 10) 4 5 refl

-- A function that makes another process where there is room, and counts its calls.
abbrev fork : ℕ → ProcessTable.Table × ℕ → ProcessTable.Table × ℕ
fork func (s, w) = ((create_process s func).1, w + 1)

fork_keeps : KeepsCount fork
unfolding create_process
fork_keeps func m h = ground arith

scheduler_tick_enough_run :
    tick_from fork 12 0 (table 3, 0) ≡ ProcessTable.scheduler_tick fork (table 3, 0)
scheduler_tick_enough_run = scheduler_tick_enough fork 2 (table 3, 0) fork_keeps (omega arith)

-- A function that leaves the table alone, and is noted.
abbrev note : ℕ → ProcessTable.Table × List ℕ → ProcessTable.Table × List ℕ
note func (s, w) = (s, func ∷ w)

scheduler_tick-call_all_example :
    ProcessTable.scheduler_tick note (kill_process (table 3) 1, []) ≡ (
      kill_process (table 3) 1,
      call_all
          (λ func w. func ∷ w)
          (waiting_funcs
            (kill_process (table 3) 1).process_table
            (kill_process (table 3) 1).process_count
            0)
          [],
    )
scheduler_tick-call_all_example =
    scheduler_tick-call_all note (λ func w. func ∷ w) (λ func s w. refl) (kill_process (table 3) 1)
      [] three_left
  where
    three_left : (kill_process (table 3) 1).process_count ≤ 10
    three_left = unfold kill_process in omega arith
