-- ===== src/ProcessTable/Slots.antt =====
-- The slots of process_manager/process_manager.c.
use cocos_os.Base.{
  ℕ, ◌+◌, ◌^◌, ◌<◌, ◌≤◌, ◌≡◌, refl, true, false, ◌||◌, arith, leb, ◌==◌, if◌then◌else◌, inl, inr,
  Bool-cases, ==_self,
}
use cocos_os.ProcessTable.{
  max_processes, waiting, Table, minus_one, create_process, kill_process, run_slot,
}

-- While fewer than ten slots are used, `create_process` returns the number used and counts one
-- more; the new slot waits with that number for its pid and the function asked for, and no other
-- slot changes.
pub create_process_lem :
    (s : Table) (func : ℕ)
    → s.process_count < max_processes
    → ((create_process s func).0 ≡ s.process_count)
      × ((create_process s func).1.process_count ≡ s.process_count + 1)
      × ((i : ℕ)
          → (create_process s func).1.process_table i ≡ (
              if i == s.process_count
              then record { pid = s.process_count; state = waiting; func = func }
              else s.process_table i))
unfolding create_process
create_process_lem s func room =
    let p : leb max_processes s.process_count ≡ false = ground arith in rw p (refl, refl, λ i. refl)

-- Once ten processes were made, `create_process` fails, also after `kill_process` of any of them.
pub create_process-kill_process_full :
    (s : Table) (pid func : ℕ)
    → s.process_count ≡ max_processes
    → create_process (kill_process s pid) func ≡ (minus_one, kill_process s pid)
unfolding create_process
create_process-kill_process_full s pid func full =
    let p : leb max_processes (kill_process s pid).process_count ≡ true = count in rw p
  where
    count : leb max_processes (kill_process s pid).process_count ≡ true
    count =
        unfold kill_process in
        elim (Bool-cases (leb (2 ^ 31) pid || leb s.process_count pid)) [
          | inl out ↦ rw out (rw full)
          | inr inside ↦ rw inside (rw full)
        ]

-- The round of `scheduler_tick` on a slot in use that `kill_process` has just cleared calls
-- nothing and changes nothing.
pub run_slot-kill_process :
    {S : Type 0} (call : ℕ → Table × S → Table × S) (s : Table) (w : S) (pid : ℕ)
    → pid < s.process_count
    → s.process_count ≤ max_processes
    → run_slot call (kill_process s pid, w) pid ≡ (kill_process s pid, w)
unfolding run_slot kill_process
run_slot-kill_process call s w pid low bound =
    let inside : (leb (2 ^ 31) pid || leb s.process_count pid) ≡ false = ground arith in
    rw (inside, ==_self pid)
