-- ===== src/Process/Life.antt =====
-- What the calls of process_manager/process.c lead to, among the calls of other holders of the heap.
use cocos_os.Base.{
  In, ℕ, ◌+◌, ◌^◌, ◌<◌, ◌≡◌, ◌≢◌, inl, inr, some, List, [], ◌∷◌, ◌++◌, arith, ◌==◌, Bool-cases, ok,
}
use cocos_os.Memory.{Addr, null, memory_alloc, memory_free}
use cocos_os.Memory.Blocks.{Block}
use cocos_os.Memory.HandedOut.{without}
use cocos_os.Memory.Counts.{times_middle}
use cocos_os.Memory.Ledger.{Ledger, Ledger-Got, Ledger-release}
use cocos_os.Paging.{Paging}
use cocos_os.Process.{Process, Processes, process_init, process_at, current_pid, process_get_pid}
use cocos_os.Process.Switch.{OnlyRuns}
use cocos_os.Process.Idents.{
  idents, addresses, held, process_sleep-Keeps, process_yield-Keeps, scheduler_tick-Keeps,
  process_kill-Keeps,
}
use cocos_os.Process.Reach.{
  Step, create, kill, sleep, yield, tick, Sound, process_init-Sound, Step-Sound,
}
use cocos_os.Process.Secure.{
  Secure, Keeps-Secure, Housed-Added, Housed-still, create-Secure, init-Secure,
}

-- The addresses that others hold and the state, after `process_init`, calls of this file while pids are left, and calls
-- of others: these take and free payloads of the heap, and change the page tables.
pub data Life (s0 : Processes) (base : List Addr) : List Addr → Processes → Type 0 where
  boot : (s : Processes) → process_init s0 ≡ ok s → Life s0 base base s
  call :
      {others : List Addr} {s t : Processes}
      → Life s0 base others s
      → s.next_pid + 1 < 2 ^ 32
      → Step s t
      → Life s0 base others t
  obtain :
      {others : List Addr} {s : Processes} (size : ℕ) (p : Addr) (m : Paging)
      → Life s0 base others s
      → size + 3 < 2 ^ 32
      → memory_alloc s.paging.heap size ≡ some (p, m.heap)
      → p ≢ null
      → Life s0 base (p ∷ others) (record s { paging = m })
  release :
      {others : List Addr} {s : Processes} (p : Addr) (m : Paging)
      → Life s0 base others s
      → In others p
      → memory_free s.paging.heap p ≡ some m.heap
      → Life s0 base (without p others) (record s { paging = m })

module _ (start end : Addr) where
  Step-Secure :
      (others : List Addr) (s t : Processes) (bs : List Block)
      → Secure start end others s bs
      → s.next_pid + 1 < 2 ^ 32
      → Step s t
      → (cs : List Block) × Secure start end others t cs
  Step-Secure others _ _ bs h left (create s t entry_point name priority pid e) =
      create-Secure start end others s t bs entry_point name priority pid h left e
  Step-Secure others _ _ bs h left (kill s pid) =
      (bs, Keeps-Secure start end others s _ bs (process_kill-Keeps s pid) h)
  Step-Secure others _ _ bs h left (sleep ticks ms s) =
      (bs, Keeps-Secure start end others s _ bs (process_sleep-Keeps ticks ms s) h)
  Step-Secure others _ _ bs h left (yield s) =
      (bs, Keeps-Secure start end others s _ bs (process_yield-Keeps s) h)
  Step-Secure others _ _ bs h left (tick ticks s) =
      (bs, Keeps-Secure start end others s _ bs (scheduler_tick-Keeps ticks s) h)

  obtain-Secure :
      (others : List Addr) (s : Processes) (bs : List Block) (size : ℕ) (p : Addr) (m : Paging)
      → Secure start end others s bs
      → size + 3 < 2 ^ 32
      → memory_alloc s.paging.heap size ≡ some (p, m.heap)
      → p ≢ null
      → (cs : List Block) × Secure start end (p ∷ others) (record s { paging = m }) cs
  obtain-Secure others s bs size p m h small got ne =
      let (cs, new, ledger, added) =
        Ledger-Got start end (held (idents s.process_list) ++ others) s.paging.heap bs size p m.heap
          h.ledger small got ne in
      (
        cs,
        record {
          ledger = ledger _ (λ q. times_middle q p (held (idents s.process_list)) others);
          housed = λ i at. Housed-Added size p start bs cs i added (h.housed i at);
          once = h.once;
          below = h.below;
          current = h.current;
        },
      )

  release-Secure :
      (others : List Addr) (s : Processes) (bs : List Block) (p : Addr) (m : Paging)
      → Secure start end others s bs
      → In others p
      → memory_free s.paging.heap p ≡ some m.heap
      → (cs : List Block) × Secure start end (without p others) (record s { paging = m }) cs
  release-Secure others s bs p m h i got =
      let (apart, cs, ledger, still) =
        Ledger-release start end (held (idents s.process_list)) others s.paging.heap bs p m.heap
          h.ledger i got in
      (
        cs,
        record {
          ledger = ledger;
          housed = λ j at.
              Housed-still start bs cs p (idents s.process_list) j still apart at (h.housed j at);
          once = h.once;
          below = h.below;
          current = h.current;
        },
      )

  Life-Secure_from :
      (s0 : Processes) (base : List Addr) (bs : List Block)
      → Ledger start end base s0.paging.heap bs
      → 0 < s0.next_pid
      → (others : List Addr) (s : Processes) → Life s0 base others s
      → ((cs : List Block) × Secure start end others s cs) × Sound s
  Life-Secure_from s0 base bs ledger pos _ _ (boot s e) =
      (init-Secure start end base s0 s bs ledger pos e, process_init-Sound s0 s e)
  Life-Secure_from s0 base bs ledger pos _ _ (call {others = o} {s = s} {t = t} l left st) =
      let ((cs, h), sound) = Life-Secure_from s0 base bs ledger pos o s l in
      (Step-Secure o s t cs h left st, Step-Sound st sound)
  Life-Secure_from s0 base bs ledger pos _ _ (obtain {others = o} {s = s} size p m l small got ne) =
      let ((cs, h), sound) = Life-Secure_from s0 base bs ledger pos o s l in
      (obtain-Secure o s cs size p m h small got ne, sound)
  Life-Secure_from s0 base bs ledger pos _ _ (release {others = o} {s = s} p m l i got) =
      let ((cs, h), sound) = Life-Secure_from s0 base bs ledger pos o s l in
      (release-Secure o s cs p m h i got, sound)

process_at-In :
    (a : Addr) (ps : List Process)
    → In (addresses (idents ps)) a
    → (p : Process) × (process_at a ps ≡ some p)
unfolding process_at
process_at-In a [] i = absurd i
process_at-In a (p ∷ ps) i = elim (Bool-cases (p.address == a)) [
  | inl here ↦ (p, rw here)
  | inr other ↦ elim i [
    | inl same ↦ absurd (ground arith)
    | inr later ↦ (let (q, found) = process_at-In a ps later in (q, rw other found))
  ]
]

-- From a heap whose payloads in use are `base`, each once, and a next pid above 0, whatever calls of this file
-- follow `process_init` while pids are left, and whatever others take and free in between: the structures, page directories
-- and stacks of the processes and what others hold are in use, all different, and the processes' have
-- room; no two processes have the same pid, and all are below the next one; `current_process`
-- points at a process of the list, so `process_get_pid` returns its pid; and no other is running.
pub Life-Secure :
    (start end : Addr) (s0 : Processes) (base : List Addr) (bs : List Block) (others : List Addr)
    (s : Processes)
    → Ledger start end base s0.paging.heap bs
    → 0 < s0.next_pid
    → Life s0 base others s
    → ((cs : List Block) × Secure start end others s cs)
      × OnlyRuns s.current_process s.process_list
      × ((p : Process) × (process_at s.current_process s.process_list ≡ some p)
          × (process_get_pid s ≡ ok p.pid))
Life-Secure start end s0 base bs others s ledger pos l =
    let ((cs, h), sound) = Life-Secure_from start end s0 base bs ledger pos others s l in
    let (p, found) = process_at-In s.current_process s.process_list h.current in
    ((cs, h), sound, (p, found, rw (current_pid, found)))
