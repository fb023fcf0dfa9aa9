-- ===== src/Process.antt =====
-- process_manager/process.c and process.h: the process list and the priority scheduler. A process
-- stands in the list with the address of its structure, by which `current_process` points at it.
-- `timer_get_ticks` and `switch_context` are defined nowhere in C: the ticks are an argument, and a
-- switch is a result, the addresses of the processes that `switch_context` is called with.
pub mod Pick
pub mod Switch
pub mod Create
pub mod Given
pub mod Reach
pub mod Idents
pub mod Secure
pub mod Life
use cocos_os.Base.{
  ℕ, ◌+◌, ◌-◌, ◌%◌, ◌^◌, Bool, true, false, ◌&&◌, Option, none, some, List, [], ◌∷◌, map, ltb, leb,
  ◌==◌, if◌then◌else◌, replicate, add32, sub32, Text, strncpy, Outcome, ok, panicked, fault, ◌>>=◌,
}
use cocos_os.Memory.{Addr, null}
use cocos_os.Paging.{Paging, allocate, paging_create_directory}

-- `process_state_t`
pub data ProcessState : Type 0 where
  stopped waiting running sleeping zombie : ProcessState

abbrev pub is_waiting : ProcessState → Bool
is_waiting waiting = true
is_waiting _ = false

abbrev pub is_sleeping : ProcessState → Bool
is_sleeping sleeping = true
is_sleeping _ = false

-- `cpu_state_t`
pub record CpuState : Type 0 where
  pub eax : ℕ
  pub ebx : ℕ
  pub ecx : ℕ
  pub edx : ℕ
  pub esi : ℕ
  pub edi : ℕ
  pub ebp : ℕ
  pub esp : ℕ
  pub eip : ℕ
  pub eflags : ℕ
  pub cs : ℕ
  pub ds : ℕ
  pub es : ℕ
  pub fs : ℕ
  pub gs : ℕ
  pub cr3 : ℕ

abbrev pub zero_cpu : CpuState
zero_cpu = record {
  eax = 0;
  ebx = 0;
  ecx = 0;
  edx = 0;
  esi = 0;
  edi = 0;
  ebp = 0;
  esp = 0;
  eip = 0;
  eflags = 0;
  cs = 0;
  ds = 0;
  es = 0;
  fs = 0;
  gs = 0;
  cr3 = 0;
}

abbrev pub process_name_max : ℕ
process_name_max = 32

abbrev pub process_stack_size : ℕ
process_stack_size = 0x40000

-- `sizeof(process_t)` on i386
abbrev pub process_bytes : ℕ
process_bytes = 148

-- `process_t`; `address` is where the structure stands, and the list stands for `next`.
pub record Process : Type 0 where
  pub address : Addr
  pub pid : ℕ
  pub ppid : ℕ
  pub name : List ℕ
  pub state : ProcessState
  pub priority : ℕ
  pub runtime : ℕ
  pub wakeup_tick : ℕ
  pub page_dir : Addr
  pub stack_top : Addr
  pub context : CpuState
  pub uid : ℕ
  pub gid : ℕ
  pub permissions : ℕ

-- What `memset` leaves at an address.
abbrev pub zero_process : Addr → Process
zero_process a = record {
  address = a;
  pid = 0;
  ppid = 0;
  name = replicate process_name_max 0;
  state = stopped;
  priority = 0;
  runtime = 0;
  wakeup_tick = 0;
  page_dir = null;
  stack_top = null;
  context = zero_cpu;
  uid = 0;
  gid = 0;
  permissions = 0;
}

-- The static variables of process.c, and the memory that it takes from.
pub record Processes : Type 0 where
  pub process_list : List Process
  pub current_process : Addr
  pub next_pid : ℕ
  pub paging : Paging

-- `"idle"`
abbrev pub idle_name : Text
idle_name = b'i' ∷ b'd' ∷ b'l' ∷ b'e' ∷ []

unfoldable pub process_init : Processes → Outcome Processes
unfolding allocate paging_create_directory strncpy
process_init s = do
  (a, m1) ← allocate s.paging process_bytes
  (dir, m2) ← paging_create_directory m1
  let zeroed : Process = zero_process a
  let idle : Process = record zeroed {
    name = strncpy 5 idle_name zeroed.name;
    state = running;
    page_dir = dir;
  }
  ok (record s { process_list = idle ∷ []; current_process = a; paging = m2 })

-- The process at an address, if one stands there.
unfoldable pub process_at : Addr → List Process → Option Process
process_at a [] = none
process_at a (p ∷ ps) = if p.address == a then some p else process_at a ps

-- `current_process->pid`
abbrev pub current_pid : Processes → Outcome ℕ
current_pid s = elim (process_at s.current_process s.process_list) [
  | none ↦ fault
  | some p ↦ ok p.pid
]

unfoldable pub process_create : Processes → Addr → Text → ℕ → Outcome (ℕ × Processes)
unfolding allocate paging_create_directory strncpy process_at
process_create s entry_point name priority = do
  (a, m1) ← allocate s.paging process_bytes
  ppid ← current_pid s
  (dir, m2) ← paging_create_directory m1
  (stack, m3) ← allocate m2 process_stack_size
  let zeroed : Process = zero_process a
  let context : CpuState = record zero_cpu {
    esp = sub32 (add32 stack process_stack_size) 4;
    eip = entry_point;
    eflags = 0x202;
    cr3 = (m3.directories dir).physical_address;
  }
  let proc : Process = record zeroed {
    pid = s.next_pid;
    ppid = ppid;
    name = strncpy (process_name_max - 1) name zeroed.name;
    state = waiting;
    priority = priority;
    page_dir = dir;
    stack_top = stack;
    context = context;
  }
  ok (
    s.next_pid,
    record s { process_list = proc ∷ s.process_list; next_pid = add32 s.next_pid 1; paging = m3 },
  )

kill_first : ℕ → List Process → List Process
kill_first pid [] = []
kill_first pid (p ∷ ps) =
    if p.pid == pid then record p { state = zombie } ∷ ps else p ∷ kill_first pid ps

unfoldable pub process_kill : Processes → ℕ → Processes
unfolding kill_first
process_kill s pid = record s { process_list = kill_first pid s.process_list }

-- A write to the state of the process at an address.
abbrev pub with_state : Addr → ProcessState → Process → Process
with_state a st p = if p.address == a then record p { state = st } else p

-- The loop of `scheduler_switch`.
unfoldable pub pick : ℕ → Option Addr → List Process → Option Addr
pick best_priority best [] = best
pick best_priority best (p ∷ ps) =
    let better = is_waiting p.state && ltb p.priority best_priority in
    pick (if better then p.priority else best_priority) (if better then some p.address else best) ps

abbrev pub first_address : List Process → Addr
first_address [] = null
first_address (p ∷ _) = p.address

abbrev pub best_process : List Process → Addr
best_process ps = elim (pick 0xff none ps) [ none ↦ first_address ps | some a ↦ a ]

-- The first part is the pair of processes that `switch_context` is called with, if it is.
unfoldable pub scheduler_switch : Processes → Option (Addr × Addr) × Processes
unfolding pick
scheduler_switch s =
    let best = best_process s.process_list in
    let old = s.current_process in
    if best == old then (none, s) else (
      some (old, best),
      record s {
        process_list = map (with_state best running) (map (with_state old waiting) s.process_list);
        current_process = best;
      },
    )

-- The two writes of `process_sleep` to the process at an address.
abbrev pub asleep : Addr → ℕ → Process → Process
asleep a tick p = if p.address == a then record p { wakeup_tick = tick; state = sleeping } else p

-- `process_init` has run, so `current_process` is not NULL.
unfoldable pub process_sleep : ℕ → Processes → ℕ → Option (Addr × Addr) × Processes
unfolding scheduler_switch
process_sleep ticks s ms =
    scheduler_switch
      (record s { process_list = map (asleep s.current_process (add32 ticks ms)) s.process_list })

abbrev pub process_yield : Processes → Option (Addr × Addr) × Processes
process_yield s = scheduler_switch s

abbrev pub process_get_current : Processes → Addr
process_get_current s = s.current_process

abbrev pub process_get_pid : Processes → Outcome ℕ
process_get_pid s = current_pid s

abbrev pub wake : ℕ → Process → Process
wake ticks p =
    if is_sleeping p.state && leb p.wakeup_tick ticks then record p { state = waiting } else p

unfoldable pub scheduler_tick : ℕ → Processes → Option (Addr × Addr) × Processes
unfolding scheduler_switch
scheduler_tick ticks s =
    scheduler_switch (record s { process_list = map (wake ticks) s.process_list })
