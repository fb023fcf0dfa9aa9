-- ===== src/ProcessTable/Tick.antt =====
-- What a tick of process_manager/process_manager.c calls.
use cocos_os.Base.{
  ℕ, zero, suc, ◌+◌, ◌≤◌, ◌≡◌, refl, sym, ap, ◌∙◌, true, false, arith, ltb, ◌==◌, List, [], ◌∷◌,
  if◌then◌else◌, inl, inr, Bool-cases, ==_self, ==_iff,
}
use cocos_os.ProcessTable.{
  max_processes, SlotState, stopped, running, waiting, is_waiting, Slot, Table, set_state, run_slot,
  tick_from, scheduler_tick,
}

module _ {S : Type 0} (call : ℕ → Table × S → Table × S) where
  -- The functions that are called keep the count within the table.
  abbrev pub KeepsCount : Type 0
  KeepsCount =
      (func : ℕ) (m : Table × S)
      → m.0.process_count ≤ max_processes
      → (call func m).0.process_count ≤ max_processes

  run_slot-count :
      (m : Table × S) (i : ℕ)
      → KeepsCount
      → m.0.process_count ≤ max_processes
      → (run_slot call m i).0.process_count ≤ max_processes
  unfolding run_slot
  run_slot-count (s, w) i keeps h = elim (Bool-cases (is_waiting (s.process_table i).state)) [
    | inl waits ↦ rw waits (keeps (s.process_table i).func (set_state s i running, w) h)
    | inr other ↦ rw other h
  ]

  tick_from_end : (more i : ℕ) (m : Table × S) → m.0.process_count ≤ i → tick_from call more i m ≡ m
  unfolding tick_from
  tick_from_end zero i m h = refl
  tick_from_end (suc more) i m h = let p : ltb i m.0.process_count ≡ false = ground arith in rw p

  tick_from_more :
      (more left i : ℕ) (m : Table × S)
      → KeepsCount
      → i + left ≡ max_processes
      → m.0.process_count ≤ max_processes
      → tick_from call (left + more) i m ≡ tick_from call left i m
  unfolding tick_from
  tick_from_more more zero i m keeps e h =
      let none_left : 0 + more ≡ more = omega arith in
      rw none_left (tick_from_end more i m (omega arith))
  tick_from_more more (suc left) i m keeps e h =
      let step : suc left + more ≡ suc (left + more) = omega arith in
      rw step (
        ap (λ rest. if ltb i m.0.process_count then rest else m)
          (tick_from_more more left (i + 1) (run_slot call m i) keeps (omega arith)
            (run_slot-count m i keeps h)))

  -- Where the count and the functions that are called stay within the table, the ten rounds that
  -- `scheduler_tick` may make are all that its loop makes: with more allowed it does the same.
  pub scheduler_tick_enough :
      (more : ℕ) (m : Table × S)
      → KeepsCount
      → m.0.process_count ≤ max_processes
      → tick_from call (max_processes + more) 0 m ≡ scheduler_tick call m
  unfolding scheduler_tick
  scheduler_tick_enough more m keeps h = tick_from_more more max_processes 0 m keeps refl h

-- The functions of the waiting slots among `left` from `i` on.
unfoldable pub waiting_funcs : (ℕ → Slot) → (left i : ℕ) → List ℕ
waiting_funcs slots zero i = []
waiting_funcs slots (suc left) i =
    let rest = waiting_funcs slots left (i + 1) in
    if is_waiting (slots i).state then (slots i).func ∷ rest else rest

-- Functions called one after another.
unfoldable pub call_all : {S : Type 0} → (ℕ → S → S) → List ℕ → S → S
call_all act [] w = w
call_all act (f ∷ fs) w = call_all act fs (act f w)

waiting_of : (st : SlotState) → is_waiting st ≡ true → st ≡ waiting
waiting_of stopped e = cc e
waiting_of running e = cc e
waiting_of waiting e = refl

abbrev slot_in : Slot → SlotState → Slot
slot_in slot st = record slot { state = st }

-- A slot that waits is running during its call, and waits again.
set_state_back :
    (s : Table) (i : ℕ)
    → is_waiting (s.process_table i).state ≡ true
    → set_state (set_state s i running) i waiting ≡ s
set_state_back s i waits = λ k. record s { process_table = λ j. same j k }
  where
    same :
        (j : ℕ) → (set_state (set_state s i running) i waiting).process_table j ≡ s.process_table j
    same j = elim (Bool-cases (j == i)) [
      | inl here ↦
          rw (here, ==_self i)
            (ap (slot_in (s.process_table i)) (sym (waiting_of (s.process_table i).state waits))
              ∙ ap s.process_table (sym ((==_iff j i).0 here)))
      | inr other ↦ rw other
    ]

module _ {S : Type 0} (call : ℕ → Table × S → Table × S) (act : ℕ → S → S)
    (quiet : (func : ℕ) (s : Table) (w : S) → call func (s, w) ≡ (s, act func w)) where
  run_slot_quiet :
      (s : Table) (w : S) (i : ℕ)
      → run_slot call (s, w) i
        ≡ (s, if is_waiting (s.process_table i).state then act (s.process_table i).func w else w)
  unfolding run_slot
  run_slot_quiet s w i = elim (Bool-cases (is_waiting (s.process_table i).state)) [
    | inl waits ↦ rw waits (
        ap (λ (m : Table × S). (set_state m.0 i waiting, m.1))
          (quiet (s.process_table i).func (set_state s i running) w)
        ∙ ap (λ t. (t, act (s.process_table i).func w)) (set_state_back s i waits))
    | inr other ↦ rw other
  ]

  tick_from_quiet :
      (left rest i : ℕ) (s : Table) (w : S)
      → i + rest ≡ s.process_count
      → rest ≤ left
      → tick_from call left i (s, w) ≡ (s, call_all act (waiting_funcs s.process_table rest i) w)
  unfolding tick_from waiting_funcs call_all
  tick_from_quiet left zero i s w e le = tick_from_end call left i (s, w) (omega arith)
  tick_from_quiet zero (suc rest) i s w e le = absurd (omega arith)
  tick_from_quiet (suc left) (suc rest) i s w e le =
      let inside : ltb i s.process_count ≡ true = ground arith in
      let after = λ (v : S). tick_from_quiet left rest (i + 1) s v (omega arith) (omega arith) in
      rw inside (
        ap (tick_from call left (i + 1)) (run_slot_quiet s w i)
        ∙ elim (Bool-cases (is_waiting (s.process_table i).state)) [
          | inl waits ↦ rw waits (after (act (s.process_table i).func w))
          | inr other ↦ rw other (after w)
        ])

  -- Where the count is within the table and the functions leave the table alone, `scheduler_tick` calls the function of
  -- every waiting slot in use once, in the order of the table, and leaves the table as it was.
  pub scheduler_tick-call_all :
      (s : Table) (w : S)
      → s.process_count ≤ max_processes
      → scheduler_tick call (s, w)
        ≡ (s, call_all act (waiting_funcs s.process_table s.process_count 0) w)
  unfolding scheduler_tick
  scheduler_tick-call_all s w h =
      tick_from_quiet max_processes s.process_count 0 s w (omega arith) h
