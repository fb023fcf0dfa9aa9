-- ===== src/Process/Idents.antt =====
-- What the calls of process_manager/process.c that switch leave alone in every process.
use cocos_os.Base.{
  In, ℕ, ◌≡◌, refl, sym, ap, ap₂, ◌∙◌, ◌⊎◌, inl, inr, ◌&&◌, Option, none, some, some_inj,
  Option-cases, List, [], ◌∷◌, map, leb, ltb, ◌==◌, if◌then◌else◌, Bool-cases, add32,
}
use mathlib.Core.Path.{subst}
use cocos_os.Memory.{Addr, null}
use cocos_os.Process.{
  Process, ProcessState, waiting, running, is_sleeping, is_waiting, Processes, pick, best_process,
  with_state, scheduler_switch, process_sleep, asleep, scheduler_tick, wake, kill_first,
  process_kill, process_yield,
}

-- A process's pid, and where it stands, its page directory and its stack.
pub record Ident : Type 0 where
  pub at : Addr
  pub number : ℕ
  pub directory : Addr
  pub stack : Addr

abbrev pub ident : Process → Ident
ident p = record { at = p.address; number = p.pid; directory = p.page_dir; stack = p.stack_top }

abbrev pub idents : List Process → List Ident
idents ps = map ident ps

abbrev pub addresses : List Ident → List Addr
addresses is = map (λ (i : Ident). i.at) is

abbrev pub pids : List Ident → List ℕ
pids is = map (λ (i : Ident). i.number) is

-- The payloads of the processes; the first one has no stack.
abbrev pub held : List Ident → List Addr
held [] = []
held (i ∷ is) =
    let rest = held is in i.at ∷ i.directory ∷ (if i.stack == null then rest else i.stack ∷ rest)

idents-map :
    (f : Process → Process) (ps : List Process)
    → ((p : Process) → ident (f p) ≡ ident p)
    → idents (map f ps) ≡ idents ps
idents-map f [] same = refl
idents-map f (p ∷ ps) same = ap₂ ◌∷◌ (same p) (idents-map f ps same)

ident-with_state :
    (a : Addr) (st : ProcessState) (p : Process) → ident (with_state a st p) ≡ ident p
ident-with_state a st p = elim (Bool-cases (p.address == a)) [ inl e ↦ rw e | inr e ↦ rw e ]

ident-asleep : (a : Addr) (tick : ℕ) (p : Process) → ident (asleep a tick p) ≡ ident p
ident-asleep a tick p = elim (Bool-cases (p.address == a)) [ inl e ↦ rw e | inr e ↦ rw e ]

ident-wake : (ticks : ℕ) (p : Process) → ident (wake ticks p) ≡ ident p
ident-wake ticks p = elim (Bool-cases (is_sleeping p.state && leb p.wakeup_tick ticks)) [
  | inl e ↦ rw e
  | inr e ↦ rw e
]

idents-kill_first : (pid : ℕ) (ps : List Process) → idents (kill_first pid ps) ≡ idents ps
unfolding kill_first
idents-kill_first pid [] = refl
idents-kill_first pid (p ∷ ps) = elim (Bool-cases (p.pid == pid)) [
  | inl found ↦ rw found
  | inr other ↦ rw other (ap (λ r. ident p ∷ r) (idents-kill_first pid ps))
]

-- The process that is switched to stands in a list that is not empty.
pick-In :
    (n : ℕ) (best : Option Addr) (ps : List Process) (a : Addr)
    → pick n best ps ≡ some a
    → (best ≡ some a) ⊎ In (addresses (idents ps)) a
unfolding pick
pick-In n best [] a e = inl e
pick-In n best (p ∷ ps) a e = elim (Bool-cases (is_waiting p.state && ltb p.priority n)) [
  | inl better ↦ elim (pick-In p.priority (some p.address) ps a (rw better at e)) [
    | inl this ↦ inr (inl (sym (some_inj this)))
    | inr later ↦ inr (inr later)
  ]
  | inr worse ↦ elim (pick-In n best ps a (rw worse at e)) [
    | inl before ↦ inl before
    | inr later ↦ inr (inr later)
  ]
]

best_process-In :
    (ps : List Process) (a : Addr)
    → In (addresses (idents ps)) a
    → In (addresses (idents ps)) (best_process ps)
best_process-In [] a i = absurd i
best_process-In (p ∷ ps) a i = elim (Option-cases (pick 0xff none (p ∷ ps))) [
  | inl none_waits ↦ rw (best_process, none_waits) (inl refl)
  | inr (b, picked) ↦
      rw (best_process, picked)
        (elim (pick-In 0xff none (p ∷ ps) b picked) [ inl e ↦ cc e | inr found ↦ found ])
]

-- Something stands where `current_process` points.
abbrev pub HasCurrent : Processes → Type 0
HasCurrent s = In (addresses (idents s.process_list)) s.current_process

-- A call that changes no process's pid or memory and leaves `current_process` on a process.
abbrev pub Keeps : Processes → Processes → Type 0
Keeps s t =
    (idents t.process_list ≡ idents s.process_list)
    × (t.next_pid ≡ s.next_pid)
    × (t.paging ≡ s.paging)
    × (HasCurrent s → HasCurrent t)

scheduler_switch-Keeps : (s : Processes) → Keeps s (scheduler_switch s).1
unfolding scheduler_switch
scheduler_switch-Keeps s = elim (Bool-cases (best_process s.process_list == s.current_process)) [
  | inl same ↦ rw same (refl, refl, refl, λ h. h)
  | inr other ↦
      (let best = best_process s.process_list in
        let same : idents (
              map (with_state best running)
                (map (with_state s.current_process waiting) s.process_list))
            ≡ idents s.process_list =
          idents-map (with_state best running)
            (map (with_state s.current_process waiting) s.process_list)
            (ident-with_state best running)
          ∙ idents-map (with_state s.current_process waiting) s.process_list
              (ident-with_state s.current_process waiting) in
        rw other (
          same,
          refl,
          refl,
          λ h.
              subst (λ is. In (addresses is) best) (sym same)
                (best_process-In s.process_list s.current_process h),
        ))
]

-- The list is changed before a switch.
map-Keeps :
    (s : Processes) (f : Process → Process)
    → ((p : Process) → ident (f p) ≡ ident p)
    → Keeps s (scheduler_switch (record s { process_list = map f s.process_list })).1
map-Keeps s f same =
    let (all, next, mem, stands) =
      scheduler_switch-Keeps (record s { process_list = map f s.process_list }) in
    let before = idents-map f s.process_list same in
    (
      all ∙ before,
      next,
      mem,
      λ h. stands (subst (λ is. In (addresses is) s.current_process) (sym before) h),
    )

pub process_sleep-Keeps : (ticks ms : ℕ) (s : Processes) → Keeps s (process_sleep ticks s ms).1
unfolding process_sleep
process_sleep-Keeps ticks ms s =
    map-Keeps s (asleep s.current_process (add32 ticks ms))
      (ident-asleep s.current_process (add32 ticks ms))

pub process_yield-Keeps : (s : Processes) → Keeps s (process_yield s).1
process_yield-Keeps s = scheduler_switch-Keeps s

pub scheduler_tick-Keeps : (ticks : ℕ) (s : Processes) → Keeps s (scheduler_tick ticks s).1
unfolding scheduler_tick
scheduler_tick-Keeps ticks s = map-Keeps s (wake ticks) (ident-wake ticks)

pub process_kill-Keeps : (s : Processes) (pid : ℕ) → Keeps s (process_kill s pid)
unfolding process_kill
process_kill-Keeps s pid =
    let same = idents-kill_first pid s.process_list in
    (same, refl, refl, λ h. subst (λ is. In (addresses is) s.current_process) (sym same) h)
