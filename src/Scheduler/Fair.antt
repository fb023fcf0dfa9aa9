-- ===== src/Scheduler/Fair.antt =====
-- Every task of scheduler/scheduler.c gets its turn, whatever tasks are added and ticks pass.
use cocos_os.Base.{
  suc, ◌≤◌, ◌≡◌, ◌≢◌, refl, sym, ap, ◌∙◌, ◌⊎◌, inl, inr, List, [], ◌∷◌, ◌++◌, arith, Bool-cases,
  ◌==◌, ==_iff, ==_of_ne, length, length-append,
}
use mathlib.Core.Path.{subst}
use cocos_os.Memory.{Addr, null}
use cocos_os.Memory.Counts.{times, times-append, times_self, times_cons, times_new}
use cocos_os.Scheduler.{Tasks, scheduler_add, scheduler_tick, tasks_run}
use cocos_os.Scheduler.Circle.{
  Trail, NotIn, NoneNull, IsCircle, scheduler_add-IsCircle, scheduler_add_first, tasks_run_round,
}

-- The tasks that were added and the state, after calls from a start without a task; no task is added twice.
pub data Reach (s0 : Tasks) : List Addr → Tasks → Type 0 where
  here : s0.current ≡ null → Reach s0 [] s0
  add :
      {added : List Addr} {s : Tasks} (task : Addr)
      → Reach s0 added s
      → task ≢ null
      → times task added ≡ 0
      → Reach s0 (task ∷ added) (scheduler_add s task)
  tick : {added : List Addr} {s : Tasks} → Reach s0 added s → Reach s0 added (scheduler_tick s).1

-- The circle has the added tasks, each once.
record Holds (added : List Addr) (s : Tasks) (xs : List Addr) : Type 0 where
  circle : IsCircle s xs
  same : (a : Addr) → times a (s.current ∷ xs) ≡ times a added
  number : suc (length xs) ≡ length added
  once : (a : Addr) → times a added ≤ 1

NotIn-of_times : (a : Addr) (xs : List Addr) → times a xs ≡ 0 → NotIn a xs
NotIn-of_times a [] e = tt
NotIn-of_times a (x ∷ xs) e = elim (Bool-cases (a == x)) [
  | inl at ↦ cc (rw at at e)
  | inr off ↦ (λ z. absurd (ground arith), NotIn-of_times a xs (rw off at e))
]

Trail-end :
    (f : Addr → Addr) (a : Addr) (xs : List Addr) (b c : Addr)
    → Trail f a xs b
    → f b ≡ c
    → Trail f a (xs ++ (b ∷ [])) c
Trail-end f a [] b c h e = (h, e)
Trail-end f a (x ∷ xs) b c h e = (h.0, Trail-end f x xs b c h.1 e)

NoneNull-end : (xs : List Addr) (a : Addr) → NoneNull xs → a ≢ null → NoneNull (xs ++ (a ∷ []))
NoneNull-end [] a h ne = (ne, tt)
NoneNull-end (x ∷ xs) a h ne = (h.0, NoneNull-end xs a h.1 ne)

-- Adding keeps the task that runs, ticking goes to the next.
current-scheduler_add :
    (s : Tasks) (task : Addr) → s.current ≢ null → (scheduler_add s task).current ≡ s.current
unfolding scheduler_add
current-scheduler_add s task ne = rw (==_of_ne ne)

current-scheduler_add_first :
    (s : Tasks) (task : Addr) → s.current ≡ null → (scheduler_add s task).current ≡ task
unfolding scheduler_add
current-scheduler_add_first s task e = rw ((==_iff s.current null).1 e)

scheduler_tick-next :
    (s : Tasks) → s.current ≢ null → (scheduler_tick s).1 ≡ record s { current = s.next s.current }
unfolding scheduler_tick
scheduler_tick-next s ne = rw (==_of_ne ne)

add-Holds :
    (added : List Addr) (s : Tasks) (xs : List Addr) (task : Addr)
    → Holds added s xs
    → task ≢ null
    → times task added ≡ 0
    → Holds (task ∷ added) (scheduler_add s task) (task ∷ xs)
add-Holds added s xs task h ne new =
    let out : times task (s.current ∷ xs) ≡ 0 = h.same task ∙ new in
    record {
      circle =
          scheduler_add-IsCircle s task xs h.circle ne (λ e. cc (sym (clash e) ∙ out))
            (NotIn-of_times task xs (omega (arith, out, times_cons task s.current xs)));
      same = λ a.
          ap (λ c. times a (c ∷ task ∷ xs)) (current-scheduler_add s task h.circle.current_task)
          ∙ omega (
            arith,
            h.same a,
            times_cons a s.current (task ∷ xs),
            times_cons a s.current xs,
            times_cons a task xs,
            times_cons a task added,
          );
      number = ap suc h.number;
      once = times_new added task h.once new;
    }
  where
    clash : task ≡ s.current → times task (s.current ∷ xs) ≡ suc (times task xs)
    clash e = ap (λ c. times task (c ∷ xs)) (sym e) ∙ times_self task xs

first-Holds :
    (s : Tasks) (task : Addr)
    → s.current ≡ null
    → task ≢ null
    → Holds (task ∷ []) (scheduler_add s task) []
first-Holds s task e ne = record {
  circle = scheduler_add_first s task e ne;
  same = λ a. ap (λ c. times a (c ∷ [])) (current-scheduler_add_first s task e);
  number = refl;
  once = times_new [] task (λ a. omega arith) refl;
}

-- The task at `x` comes after the one that runs.
turn-Holds :
    (added : List Addr) (s : Tasks) (x : Addr) (xs : List Addr)
    → Holds added s (x ∷ xs)
    → Holds added (record s { current = x }) (xs ++ (s.current ∷ []))
turn-Holds added s x xs h = record {
  circle = record {
    current_task = h.circle.others.0;
    others = NoneNull-end xs s.current h.circle.others.1 h.circle.current_task;
    apart =
        NotIn-of_times x (xs ++ (s.current ∷ []))
          (omega (arith, h.once x, moved x, h.same x, times_self x (xs ++ (s.current ∷ []))));
    round = Trail-end s.next x xs s.current x h.circle.round.1 h.circle.round.0;
  };
  same = λ a. moved a ∙ h.same a;
  number = omega (arith, h.number, length-append xs (s.current ∷ []));
  once = h.once;
}
  where
    moved : (a : Addr) → times a (x ∷ (xs ++ (s.current ∷ []))) ≡ times a (s.current ∷ x ∷ xs)
    moved a = omega (
      arith,
      times_cons a x (xs ++ (s.current ∷ [])),
      times-append a xs (s.current ∷ []),
      times_cons a s.current (x ∷ xs),
      times_cons a x xs,
    )

tick-Holds :
    (added : List Addr) (s : Tasks) (xs : List Addr)
    → Holds added s xs
    → (ys : List Addr) × Holds added (scheduler_tick s).1 ys
tick-Holds added s xs h =
    subst (λ t. (ys : List Addr) × Holds added t ys)
      (sym (scheduler_tick-next s h.circle.current_task)) (turned xs h)
  where
    turned :
        (zs : List Addr)
        → Holds added s zs
        → (ys : List Addr) × Holds added (record s { current = s.next s.current }) ys
    turned [] g =
        ([], subst (λ c. Holds added (record s { current = c }) []) (sym g.circle.round) g)
    turned (z ∷ zs) g = (
      zs ++ (s.current ∷ []),
      subst (λ c. Holds added (record s { current = c }) (zs ++ (s.current ∷ [])))
          (sym g.circle.round.0) (turn-Holds added s z zs g),
    )

-- No task yet, or a circle of them.
abbrev Running : List Addr → Tasks → Type 0
Running added s = ((added ≡ []) × (s.current ≡ null)) ⊎ ((xs : List Addr) × Holds added s xs)

scheduler_tick_idle : (s : Tasks) → s.current ≡ null → (scheduler_tick s).1.current ≡ null
unfolding scheduler_tick
scheduler_tick_idle s e = rw ((==_iff s.current null).1 e) e

Reach-Running : (s0 : Tasks) (added : List Addr) (s : Tasks) → Reach s0 added s → Running added s
Reach-Running s0 _ _ (here e) = inl (refl, e)
Reach-Running s0 _ _ (add {added = added} {s = s} task r ne new) =
    elim (Reach-Running s0 added s r) [
      | inl idle ↦ inr (
        [],
        subst (λ l. Holds (task ∷ l) (scheduler_add s task) []) (sym idle.0)
            (first-Holds s task idle.1 ne),
      )
      | inr (xs, h) ↦ inr (task ∷ xs, add-Holds added s xs task h ne new)
    ]
Reach-Running s0 _ _ (tick {added = added} {s = s} r) = elim (Reach-Running s0 added s r) [
  | inl idle ↦ inl (idle.0, scheduler_tick_idle s idle.1)
  | inr (xs, h) ↦ inr (tick-Holds added s xs h)
]

-- From a start without a task, whatever tasks are added, none of them twice or NULL, and whatever ticks pass in between:
-- in as many further ticks as there are tasks each of them gets to run once, and nothing else does.
pub Reach-tasks_run :
    (s0 : Tasks) (added : List Addr) (s : Tasks) (a : Addr)
    → Reach s0 added s
    → times a (tasks_run (length added) s) ≡ times a added
unfolding tasks_run
Reach-tasks_run s0 added s a r = elim (Reach-Running s0 added s r) [
  | inl idle ↦ subst (λ l. times a (tasks_run (length l) s) ≡ times a l) (sym idle.0) refl
  | inr (xs, h) ↦
      ap (λ n. times a (tasks_run n s)) (sym h.number)
      ∙ ap (times a) (tasks_run_round s xs h.circle)
      ∙ omega (arith, h.same a, times-append a xs (s.current ∷ []), times_cons a s.current xs)
]
