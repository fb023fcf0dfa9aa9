-- ===== src/Process/Secure.antt =====
-- The processes of process_manager/process.c own blocks of the heap of kernel/memory/memory.c.
use cocos_os.Base.{
  In, ℕ, ◌+◌, ◌^◌, ◌<◌, ◌≤◌, ◌≡◌, ◌≢◌, refl, sym, ◌∙◌, ◌⊎◌, inl, inr, List, [], ◌∷◌, ◌++◌, arith,
  ◌==◌, Bool-cases, ==_of_ne, add32, Text, ok, ok_inj, bind_ok,
}
use mathlib.Core.Path.{subst}
use cocos_os.Memory.{Addr, null}
use cocos_os.Memory.Blocks.{Block}
use cocos_os.Memory.Safety.{InUse}
use cocos_os.Memory.HandedOut.{Added}
use cocos_os.Memory.Counts.{times, times_cons, times_ne, times_new}
use cocos_os.Memory.Ledger.{Ledger, Got, Ledger-Got}
use cocos_os.Paging.{Paging, page_directory_bytes, allocate, paging_create_directory}
use cocos_os.Paging.Fresh.{allocate_done}
use cocos_os.Process.{
  Process, Processes, process_init, process_create, process_bytes, process_stack_size, current_pid,
}
use cocos_os.Process.Idents.{Ident, ident, idents, pids, held, HasCurrent, Keeps}

-- A process's structure, directory and stack stand in blocks in use that are long enough.
abbrev pub Room : ℕ → Addr → Addr → List Block → Type 0
Room size p start bs = (k : ℕ) × (size ≤ k) × InUse p k start bs

pub record Housed (start : Addr) (bs : List Block) (i : Ident) : Type 0 where
  pub structure : Room process_bytes i.at start bs
  pub directory : Room page_directory_bytes i.directory start bs
  pub stack : (i.stack ≡ null) ⊎ Room process_stack_size i.stack start bs

-- What the processes hold is theirs alone, each has a pid of its own, below the next one, and
-- `current_process` is one of them.
pub record Secure (start end : Addr) (others : List Addr) (s : Processes) (bs : List Block)
    : Type 0 where
  pub ledger : Ledger start end (held (idents s.process_list) ++ others) s.paging.heap bs
  pub housed : (i : Ident) → In (idents s.process_list) i → Housed start bs i
  pub once : (n : ℕ) → times n (pids (idents s.process_list)) ≤ 1
  pub below : (n : ℕ) → s.next_pid ≤ n → times n (pids (idents s.process_list)) ≡ 0
  pub current : HasCurrent s

Room-Added :
    (size n : ℕ) (p q start : Addr) (bs cs : List Block)
    → Added size p start bs cs
    → Room n q start bs
    → Room n q start cs
Room-Added size n p q start bs cs added (k, room, used) = (k, room, (added.1 q k used).1)

pub Housed-Added :
    (size : ℕ) (p start : Addr) (bs cs : List Block) (i : Ident)
    → Added size p start bs cs
    → Housed start bs i
    → Housed start cs i
Housed-Added size p start bs cs i added h = record {
  structure = Room-Added size process_bytes p i.at start bs cs added h.structure;
  directory = Room-Added size page_directory_bytes p i.directory start bs cs added h.directory;
  stack = elim h.stack [
    | inl e ↦ inl e
    | inr r ↦ inr (Room-Added size process_stack_size p i.stack start bs cs added r)
  ];
}

held_rest :
    (q : Addr) (j : Ident) (js : List Ident) → times q (held (j ∷ js)) ≡ 0 → times q (held js) ≡ 0
held_rest q j js e = ground arith

-- What no process of the list holds is none of a process's three addresses.
held-apart :
    (q : Addr) (is : List Ident) (i : Ident)
    → times q (held is) ≡ 0
    → In is i
    → (i.at ≢ q) × (i.directory ≢ q) × (i.stack ≢ null → i.stack ≢ q)
held-apart q [] i e at = absurd at
held-apart q (j ∷ js) i e (inr later) = held-apart q js i (held_rest q j js e) later
held-apart q (j ∷ js) i e (inl same) =
    subst (λ x. (x.at ≢ q) × (x.directory ≢ q) × (x.stack ≢ null → x.stack ≢ q)) (sym same)
      (λ z. absurd (ground arith), λ z. absurd (ground arith), λ full z. absurd (ground arith))

-- A release of another's payload leaves a process housed.
pub Housed-still :
    (start : Addr) (bs cs : List Block) (p : Addr) (is : List Ident) (i : Ident)
    → ((q k : ℕ) → q ≢ p → InUse q k start bs → InUse q k start cs)
    → times p (held is) ≡ 0
    → In is i
    → Housed start bs i
    → Housed start cs i
Housed-still start bs cs p is i still apart at h =
    let (a, d, s) = held-apart p is i apart at in
    record {
      structure = let (k, room, used) = h.structure in (k, room, still i.at k a used);
      directory = let (k, room, used) = h.directory in (k, room, still i.directory k d used);
      stack = elim (Bool-cases (i.stack == null)) [
        | inl empty ↦ inl (ground arith)
        | inr full ↦ elim h.stack [
          | inl e ↦ inl e
          | inr (k, room, used) ↦ inr (k, room, still i.stack k (s (ground arith)) used)
        ]
      ];
    }

module _ (start end : Addr) where
  -- What an allocation of the kernel gives.
  allocate-Got :
      (ps : List Addr) (m : Paging) (bs : List Block) (size : ℕ) (p : Addr) (m' : Paging)
      → Ledger start end ps m.heap bs
      → size + 3 < 2 ^ 32
      → allocate m size ≡ ok (p, m')
      → (p ≢ null) × Got start end ps bs size p m'.heap
  allocate-Got ps m bs size p m' ledger small e =
      let (h, got, ne, same) = allocate_done m size p m' e in
      (
        ne,
        subst (λ (x : Paging). Got start end ps bs size p x.heap) (sym same)
            (Ledger-Got start end ps m.heap bs size p h ledger small got ne),
      )

  create_directory-Got :
      (ps : List Addr) (m : Paging) (bs : List Block) (dir : Addr) (m' : Paging)
      → Ledger start end ps m.heap bs
      → paging_create_directory m ≡ ok (dir, m')
      → (dir ≢ null) × Got start end ps bs page_directory_bytes dir m'.heap
  unfolding paging_create_directory
  create_directory-Got ps m bs dir m' ledger e =
      let ((p, m1), given, rest) = bind_ok (allocate m page_directory_bytes) _ e in
      let done = ok_inj rest in
      let (ne, got) = allocate-Got ps m bs page_directory_bytes p m1 ledger (omega arith) given in
      let given_dir : (p ≢ null) × Got start end ps bs page_directory_bytes p m1.heap = (ne, got) in
      subst
        (λ (r : Addr × Paging).
          (r.0 ≢ null) × Got start end ps bs page_directory_bytes r.0 r.1.heap)
        done given_dir

  pub Keeps-Secure :
      (others : List Addr) (s t : Processes) (bs : List Block)
      → Keeps s t
      → Secure start end others s bs
      → Secure start end others t bs
  Keeps-Secure others s t bs (same, next, mem, stands) h = record {
    ledger =
        subst (λ (m : Paging). Ledger start end (held (idents t.process_list) ++ others) m.heap bs)
          (sym mem)
          (subst (λ is. Ledger start end (held is ++ others) s.paging.heap bs) (sym same) h.ledger);
    housed = subst (λ is. (i : Ident) → In is i → Housed start bs i) (sym same) h.housed;
    once = subst (λ is. (n : ℕ) → times n (pids is) ≤ 1) (sym same) h.once;
    below = λ n le. subst (λ is. times n (pids is) ≡ 0) (sym same) (h.below n (omega arith));
    current = stands h.current;
  }

  -- A new process, whose three payloads have just been allocated.
  new-Secure :
      (others : List Addr) (s : Processes) (bs bs1 bs2 bs3 : List Block) (proc : Process)
      (m : Paging)
      → Secure start end others s bs
      → s.next_pid + 1 < 2 ^ 32
      → proc.pid ≡ s.next_pid
      → proc.stack_top ≢ null
      → Added process_bytes proc.address start bs bs1
      → Added page_directory_bytes proc.page_dir start bs1 bs2
      → Added process_stack_size proc.stack_top start bs2 bs3
      → ((rs : List Addr)
          → ((q : Addr)
              → times q rs
                ≡ times q (
                    proc.stack_top
                    ∷ proc.page_dir
                    ∷ proc.address
                    ∷ (held (idents s.process_list) ++ others)))
          → Ledger start end rs m.heap bs3)
      → Secure start end others
          (record s {
            process_list = proc ∷ s.process_list;
            next_pid = add32 s.next_pid 1;
            paging = m;
          })
          bs3
  new-Secure others s bs bs1 bs2 bs3 proc m h left number ne added1 added2 added3 ledger = record {
    ledger = ledger _ count;
    housed = λ i at. elim at [
      | inl same ↦ subst (Housed start bs3) (sym same) (record {
        structure =
            Room-Added _ _ _ proc.address start bs2 bs3 added3
              (Room-Added _ _ _ proc.address start bs1 bs2 added2 added1.0);
        directory = Room-Added _ _ _ proc.page_dir start bs2 bs3 added3 added2.0;
        stack = inr added3.0;
      })
      | inr old ↦ Housed-Added process_stack_size proc.stack_top start bs2 bs3 i added3 (
          Housed-Added page_directory_bytes proc.page_dir start bs1 bs2 i added2
            (Housed-Added process_bytes proc.address start bs bs1 i added1 (h.housed i old)))
    ];
    once = λ n.
        times_new (pids (idents s.process_list)) proc.pid h.once (h.below proc.pid (omega arith)) n;
    below = λ n le.
        let ne' : n ≢ proc.pid = omega arith in
        times_ne n proc.pid (pids (idents s.process_list)) ne' ∙ h.below n (omega arith);
    current = inr h.current;
  }
    where
      count :
          (q : Addr)
          → times q (held (ident proc ∷ idents s.process_list) ++ others)
            ≡ times q (
                proc.stack_top
                ∷ proc.page_dir
                ∷ proc.address
                ∷ (held (idents s.process_list) ++ others))
      count q =
          let rest = held (idents s.process_list) ++ others in
          rw (==_of_ne ne) (
            omega (
              arith,
              times_cons q proc.address (proc.page_dir ∷ proc.stack_top ∷ rest),
              times_cons q proc.page_dir (proc.stack_top ∷ rest),
              times_cons q proc.stack_top rest,
              times_cons q proc.stack_top (proc.page_dir ∷ proc.address ∷ rest),
              times_cons q proc.page_dir (proc.address ∷ rest),
              times_cons q proc.address rest,
            ))

  pub create-Secure :
      (others : List Addr) (s t : Processes) (bs : List Block) (entry_point : Addr) (name : Text)
      (priority pid : ℕ)
      → Secure start end others s bs
      → s.next_pid + 1 < 2 ^ 32
      → process_create s entry_point name priority ≡ ok (pid, t)
      → (cs : List Block) × Secure start end others t cs
  unfolding process_create
  create-Secure others s t bs entry_point name priority pid h left e =
      let ps = held (idents s.process_list) ++ others in
      let ((a, m1), e1, r1) = bind_ok (allocate s.paging process_bytes) _ e in
      let (ppid, e2, r2) = bind_ok (current_pid s) _ r1 in
      let ((dir, m2), e3, r3) = bind_ok (paging_create_directory m1) _ r2 in
      let ((stack, m3), e4, r4) = bind_ok (allocate m2 process_stack_size) _ r3 in
      let (ne1, (bs1, new1, ledger1, added1)) =
        allocate-Got ps s.paging bs process_bytes a m1 h.ledger (omega arith) e1 in
      let (ne2, (bs2, new2, ledger2, added2)) =
        create_directory-Got (a ∷ ps) m1 bs1 dir m2 (ledger1 (a ∷ ps) (λ q. refl)) e3 in
      let (ne3, (bs3, new3, ledger3, added3)) =
        allocate-Got (dir ∷ a ∷ ps) m2 bs2 process_stack_size stack m3
          (ledger2 (dir ∷ a ∷ ps) (λ q. refl)) (omega arith) e4 in
      subst (λ (r : ℕ × Processes). (cs : List Block) × Secure start end others r.1 cs) (ok_inj r4)
        (bs3, new-Secure others s bs bs1 bs2 bs3 _ m3 h left refl ne3 added1 added2 added3 ledger3)

  -- The first process, without a stack, in a heap of which others hold a part.
  pub init-Secure :
      (others : List Addr) (s t : Processes) (bs : List Block)
      → Ledger start end others s.paging.heap bs
      → 0 < s.next_pid
      → process_init s ≡ ok t
      → (cs : List Block) × Secure start end others t cs
  unfolding process_init
  init-Secure others s t bs ledger pos e =
      let ((a, m1), e1, r1) = bind_ok (allocate s.paging process_bytes) _ e in
      let ((dir, m2), e2, r2) = bind_ok (paging_create_directory m1) _ r1 in
      let (ne1, (bs1, new1, ledger1, added1)) =
        allocate-Got others s.paging bs process_bytes a m1 ledger (omega arith) e1 in
      let (ne2, (bs2, new2, ledger2, added2)) =
        create_directory-Got (a ∷ others) m1 bs1 dir m2 (ledger1 (a ∷ others) (λ q. refl)) e2 in
      subst (λ (r : Processes). (cs : List Block) × Secure start end others r cs) (ok_inj r2)
        (
          bs2,
          record {
            ledger = ledger2 (a ∷ dir ∷ others) (λ q. omega (
              arith,
              times_cons q a (dir ∷ others),
              times_cons q dir others,
              times_cons q dir (a ∷ others),
              times_cons q a others,
            ));
            housed = λ i at. elim at [
              | inl same ↦ subst (Housed start bs2) (sym same) (record {
                structure = Room-Added _ _ _ a start bs1 bs2 added2 added1.0;
                directory = added2.0;
                stack = inl refl;
              })
              | inr old ↦ absurd old
            ];
            once = λ n. times_new [] 0 (λ k. omega arith) refl n;
            below = λ n le. (let ne' : n ≢ 0 = omega arith in times_ne n 0 [] ne');
            current = inl refl;
          },
        )
