-- ===== src/Scheduler/Circle.antt =====
-- The circle of tasks of scheduler/scheduler.c: adding to it, and going round it.
use cocos_os.Base.{
  suc, ◌≡◌, ◌≢◌, refl, sym, ap, ap₂, ◌∙◌, true, List, [], ◌∷◌, ◌++◌, ◌==◌, ==_iff, ==_of_ne,
  ==_self, update, length,
}
use cocos_os.Memory.{Addr, null}
use cocos_os.Scheduler.{Tasks, scheduler_add, scheduler_tick, tasks_run}

-- From `a` the pointers lead through `xs` to `b`.
abbrev pub Trail : (Addr → Addr) → Addr → List Addr → Addr → Type 0
Trail next a [] b = next a ≡ b
Trail next a (x ∷ xs) b = (next a ≡ x) × Trail next x xs b

abbrev pub NotIn : Addr → List Addr → Type 0
NotIn a [] = Unit
NotIn a (x ∷ xs) = (x ≢ a) × NotIn a xs

abbrev pub NoneNull : List Addr → Type 0
NoneNull [] = Unit
NoneNull (x ∷ xs) = (x ≢ null) × NoneNull xs

-- The tasks are the current one and then `xs`, and the last of them leads back.
pub record IsCircle (s : Tasks) (xs : List Addr) : Type 0 where
  pub current_task : s.current ≢ null
  pub others : NoneNull xs
  pub apart : NotIn s.current xs
  pub round : Trail s.next s.current xs s.current

-- A walk that meets neither of two addresses does not see writes to them.
Trail-update :
    (f : Addr → Addr) (p q v w : Addr) (a : Addr) (xs : List Addr) (b : Addr)
    → a ≢ p
    → a ≢ q
    → NotIn p xs
    → NotIn q xs
    → Trail f a xs b
    → Trail (update (update f p v) q w) a xs b
Trail-update f p q v w a [] b np nq outp outq h = rw (==_of_ne nq, ==_of_ne np) h
Trail-update f p q v w a (x ∷ xs) b np nq outp outq h = (
  rw (==_of_ne nq, ==_of_ne np) h.0,
  Trail-update f p q v w x xs b outp.0 outq.0 outp.1 outq.1 h.1,
)

-- The new task takes over the way on from the current one.
Trail-insert :
    (f : Addr → Addr) (a task : Addr) (xs : List Addr) (b : Addr)
    → task ≢ a
    → NotIn a xs
    → NotIn task xs
    → Trail f a xs b
    → Trail (update (update f task (f a)) a task) task xs b
Trail-insert f a task [] b ne outa outt h = rw (==_of_ne ne, ==_self task) h
Trail-insert f a task (x ∷ xs) b ne outa outt h = (
  rw (==_of_ne ne, ==_self task) h.0,
  Trail-update f task a (f a) task x xs b outt.0 outa.0 outt.1 outa.1 h.1,
)

-- A new task that `scheduler_add` puts into a circle stands right after the current one, before
-- all the others, whose order stays.
pub scheduler_add-IsCircle :
    (s : Tasks) (task : Addr) (xs : List Addr)
    → IsCircle s xs
    → task ≢ null
    → task ≢ s.current
    → NotIn task xs
    → IsCircle (scheduler_add s task) (task ∷ xs)
unfolding scheduler_add
scheduler_add-IsCircle s task xs h some_task new out = rw (==_of_ne h.current_task) (record {
  current_task = h.current_task;
  others = (some_task, h.others);
  apart = (new, h.apart);
  round = (
    rw (==_self s.current),
    Trail-insert s.next s.current task xs s.current new h.apart out h.round,
  );
})

-- The first task makes a circle alone.
pub scheduler_add_first :
    (s : Tasks) (task : Addr) → s.current ≡ null → task ≢ null → IsCircle (scheduler_add s task) []
unfolding scheduler_add
scheduler_add_first s task e ne =
    let at : (s.current == null) ≡ true = (==_iff s.current null).1 e in
    rw at (record { current_task = ne; others = tt; apart = tt; round = rw (==_self task) })

tasks_run-Trail :
    (s : Tasks) (a : Addr) (xs : List Addr) (b : Addr)
    → s.current ≡ a
    → a ≢ null
    → NoneNull xs
    → Trail s.next a xs b
    → tasks_run (suc (length xs)) s ≡ xs ++ (b ∷ [])
unfolding tasks_run scheduler_tick
tasks_run-Trail s a [] b at ne clean h =
    let here : s.current ≢ null = λ z. ne (sym at ∙ z) in
    rw (==_of_ne here) (ap (λ x. x ∷ []) (ap s.next at ∙ h))
tasks_run-Trail s a (x ∷ xs) b at ne clean h =
    let here : s.current ≢ null = λ z. ne (sym at ∙ z) in
    let now : s.next s.current ≡ x = ap s.next at ∙ h.0 in
    rw (==_of_ne here) (
      ap₂ ◌∷◌ now
        (tasks_run-Trail (record s { current = s.next s.current }) x xs b now clean.0 clean.1 h.1))

-- In a circle of tasks, one tick for each task runs every other task once, in the circle's order,
-- and comes back to the one that ran before.
pub tasks_run_round :
    (s : Tasks) (xs : List Addr)
    → IsCircle s xs
    → tasks_run (suc (length xs)) s ≡ xs ++ (s.current ∷ [])
tasks_run_round s xs h =
    tasks_run-Trail s s.current xs s.current refl h.current_task h.others h.round
