-- ===== src/ProcessTable.antt =====
-- process_manager/process_manager.c and process_manager.h: a table of ten processes. An `int` is its
-- 32-bit pattern. What a process's function does is an argument.
pub mod Slots
pub mod Tick
use cocos_os.Base.{
  ℕ, zero, suc, ◌+◌, ◌-◌, ◌^◌, Bool, true, false, ◌||◌, leb, ltb, ◌==◌, if◌then◌else◌, update,
}

abbrev pub max_processes : ℕ
max_processes = 10

-- `process_state`, in its order: a zeroed slot is stopped.
pub data SlotState : Type 0 where
  stopped running waiting : SlotState

abbrev pub is_waiting : SlotState → Bool
is_waiting waiting = true
is_waiting _ = false

-- `process_t` of this header; `func` is the address of the function.
pub record Slot : Type 0 where
  pub pid : ℕ
  pub state : SlotState
  pub func : ℕ

abbrev pub zero_slot : Slot
zero_slot = record { pid = 0; state = stopped; func = 0 }

pub record Table : Type 0 where
  pub process_table : ℕ → Slot
  pub process_count : ℕ

-- -1
abbrev pub minus_one : ℕ
minus_one = 2 ^ 32 - 1

unfoldable pub create_process : Table → ℕ → ℕ × Table
create_process s func = if leb max_processes s.process_count then (minus_one, s) else (
  s.process_count,
  record s {
    process_table =
        update s.process_table s.process_count
          (record { pid = s.process_count; state = waiting; func = func });
    process_count = s.process_count + 1;
  },
)

-- A pattern from 2 ^ 31 on is a negative `pid`.
unfoldable pub kill_process : Table → ℕ → Table
kill_process s pid =
    if leb (2 ^ 31) pid || leb s.process_count pid
    then s
    else record s { process_table = update s.process_table pid zero_slot }

abbrev pub set_state : Table → ℕ → SlotState → Table
set_state s i st =
    let slot = s.process_table i in
    record s { process_table = update s.process_table i (record slot { state = st }) }

-- A process's function acts on the table and on the rest of the machine.
module _ {S : Type 0} (call : ℕ → Table × S → Table × S) where
  -- One round of the loop of `scheduler_tick`.
  unfoldable pub run_slot : Table × S → ℕ → Table × S
  run_slot (s, w) i =
      if is_waiting (s.process_table i).state
      then (let (s', w') = call (s.process_table i).func (set_state s i running, w) in
          (set_state s' i waiting, w'))
      else (s, w)

  -- No more than ten rounds are made, as the count stays within the table.
  unfoldable pub tick_from : ℕ → ℕ → Table × S → Table × S
  unfolding run_slot
  tick_from zero i m = m
  tick_from (suc left) i m =
      let rest = tick_from left (i + 1) (run_slot m i) in
      if ltb i m.0.process_count then rest else m

  unfoldable pub scheduler_tick : Table × S → Table × S
  unfolding tick_from
  scheduler_tick m = tick_from max_processes 0 m
