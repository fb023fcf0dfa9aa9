-- ===== src/Memory/Ledger.antt =====
-- What the clients of kernel/memory/memory.c together hold of its heap, each address once.
use cocos_os.Base.{
  In, ℕ, suc, ◌+◌, ◌^◌, ◌<◌, ◌≤◌, ◌≡◌, ◌≢◌, refl, ap, ◌∙◌, ◌⊎◌, inl, inr, true, Option, none, some,
  List, ◌∷◌, ◌++◌, arith, ◌==◌, ◌↔◌, Bool-cases, ==_iff, some_inj, sym,
}
use mathlib.Core.Path.{subst}
use cocos_os.Memory.{Addr, null, Heap, align4, memory_alloc, memory_free}
use cocos_os.Memory.Blocks.{Block, alloc, release, coalesce_all}
use cocos_os.Memory.Alloc.{Served, memory_alloc_lem}
use cocos_os.Memory.Safety.{InUse, InUse-le, Safe, alloc-Safe}
use cocos_os.Memory.HandedOut.{
  without, without-In, In-without, Kept, Added, alloc-Kept, free-Kept, free_others,
}
use cocos_os.Memory.Counts.{
  times_taken, times_others, times_new, times, times_self, times_ne, times_cons, In-times,
}
use cocos_os.Memory.Lifecycle.{can_free}

-- The heap is well formed, and its payloads in use are these addresses, each of them once.
pub record Ledger (start end : Addr) (ps : List Addr) (s : Heap) (bs : List Block) : Type 0 where
  pub kept : Kept start end ps s bs
  pub once : (q : Addr) → times q ps ≤ 1

module _ (start end : Addr) where
  Kept-same :
      (ps rs : List Addr) (s : Heap) (bs : List Block)
      → ((q : Addr) → In ps q ↔ In rs q)
      → Kept start end ps s bs
      → Kept start end rs s bs
  Kept-same ps rs s bs same h = record {
    heap_ok = h.heap_ok;
    joined = h.joined;
    begins = h.begins;
    ends = h.ends;
    handed_out = λ q i. h.handed_out q ((same q).1 i);
    only = λ q k used. (same q).0 (h.only q k used);
  }

  -- An address that is held is in use, and is not NULL.
  pub held_ne :
      (ps : List Addr) (s : Heap) (bs : List Block) (q : Addr)
      → Ledger start end ps s bs
      → 0 < times q ps
      → q ≢ null
  held_ne ps s bs q h held =
      let (k, used) = h.kept.handed_out q ((In-times q ps).1 held) in
      omega (arith, InUse-le q k start bs used)

  -- `Memory_alloc` returns an address that no client held, or NULL and the heap as it was.
  abbrev pub Granted :
      (ps : List Addr) (s : Heap) (bs : List Block) (size : ℕ) (p : Addr) (s' : Heap) → Type 0
  Granted ps s bs size p s' =
      ((p ≡ null) × (s' ≡ s))
      ⊎ ((p ≢ null)
          × (cs : List Block) × (times p ps ≡ 0)
          × ((rs : List Addr)
              → ((q : Addr) → times q rs ≡ times q (p ∷ ps))
              → Ledger start end rs s' cs)
          × Added size p start bs cs)

  granted :
      (ps : List Addr) (s : Heap) (bs : List Block) (size : ℕ) (p : Addr) (s' : Heap)
      → Ledger start end ps s bs
      → 0 < size
      → size + 3 < 2 ^ 32
      → memory_alloc s size ≡ some (p, s')
      → p ≢ null
      → Granted ps s bs size p s'
  granted ps s bs size p s' h pos small got ne =
      let (cs, kept, added) = alloc-Kept start end ps s bs size p s' h.kept pos small got ne in
      let new : times p ps ≡ 0 = elim (Bool-cases (times p ps == 0)) [
        | inl none_yet ↦ (==_iff _ _).0 none_yet
        | inr held ↦
            (let (k, used) = h.kept.handed_out p ((In-times p ps).1 (ground arith)) in
              absurd ((added.1 p k used).0 refl))
      ] in
      inr (
        ne,
        cs,
        new,
        λ rs same. record {
          kept =
              Kept-same (p ∷ ps) rs s' cs
                (λ q. (
                  λ i. (In-times q rs).1 (rw (same q) ((In-times q (p ∷ ps)).0 i)),
                  λ i. (In-times q (p ∷ ps)).1 (subst (λ n. 0 < n) (same q) ((In-times q rs).0 i)),
                ))
                kept;
          once = λ q. rw (same q) (times_new ps p h.once new q);
        },
        added,
      )

  pub Ledger-alloc :
      (ps : List Addr) (s : Heap) (bs : List Block) (size : ℕ)
      → Ledger start end ps s bs
      → size + 3 < 2 ^ 32
      → (p : Addr) × (s' : Heap) × (memory_alloc s size ≡ some (p, s')) × Granted ps s bs size p s'
  unfolding memory_alloc
  Ledger-alloc ps s bs size h small = elim (Bool-cases (size == 0)) [
    | inl zero_size ↦ (null, s, empty zero_size, inl (refl, refl))
    | inr pos ↦
        answer (ground arith) (alloc (align4 size) s.heap_start bs)
          (memory_alloc_lem s bs size h.kept.heap_ok (ground arith) small)
          (alloc-Safe (align4 size) s.heap_start bs)
  ]
    where
      empty : (size == 0) ≡ true → memory_alloc s size ≡ some (null, s)
      empty z = rw z

      answer :
          0 < size
          → (o : Option (Addr × List Block)) → Served s size o
          → Safe (align4 size) s.heap_start bs o
          → (p : Addr) × (s' : Heap) × (memory_alloc s size ≡ some (p, s'))
            × Granted ps s bs size p s'
      answer pos none run safe = (null, s, run, inl (refl, refl))
      answer pos (some (p, cs)) (s', run, heap, at, to) ((n, room, used), others) =
          elim (Bool-cases (p == null)) [
            | inl z ↦ absurd (omega (arith, (==_iff p null).0 z, InUse-le p n s.heap_start cs used))
            | inr ne ↦ (p, s', run, granted ps s bs size p s' h pos small run (ground arith))
          ]

  -- What a client gets that has got an address.
  abbrev pub Got : (ps : List Addr) (bs : List Block) (size : ℕ) (p : Addr) (s' : Heap) → Type 0
  Got ps bs size p s' =
      (cs : List Block) × (times p ps ≡ 0)
      × ((rs : List Addr)
          → ((q : Addr) → times q rs ≡ times q (p ∷ ps))
          → Ledger start end rs s' cs)
      × Added size p start bs cs

  pub Ledger-Got :
      (ps : List Addr) (s : Heap) (bs : List Block) (size : ℕ) (p : Addr) (s' : Heap)
      → Ledger start end ps s bs
      → size + 3 < 2 ^ 32
      → memory_alloc s size ≡ some (p, s')
      → p ≢ null
      → Got ps bs size p s'
  Ledger-Got ps s bs size p s' h small got ne =
      let (q, t, run, outcome) = Ledger-alloc ps s bs size h small in
      let same = some_inj (sym run ∙ got) in
      let full : q ≢ null = λ z. ne (sym (ap (λ (r : Addr × Heap). r.0) same) ∙ z) in
      subst (λ (r : Addr × Heap). Got ps bs size r.0 r.1) same
        (elim outcome [
          | inl refused ↦ absurd (full refused.0)
          | inr (full, cs, rest, more, added) ↦ (cs, rest, more, added)
        ])

  -- `Memory_free` of what is held returns.
  pub Ledger-free :
      (ps rs : List Addr) (s : Heap) (bs : List Block) (p : Addr)
      → Ledger start end ps s bs
      → ((q : Addr) → times q ps ≡ times q (p ∷ rs))
      → (s' : Heap) × (memory_free s p ≡ some s')
        × (cs : List Block) × Ledger start end rs s' cs
        × ((q k : ℕ) → q ≢ p → InUse q k start bs → InUse q k start cs)
  Ledger-free ps rs s bs p h same =
      let listed : times p ps ≡ suc (times p rs) = same p ∙ times_self p rs in
      let held = (In-times p ps).1 (omega arith) in
      let (s', run) = can_free start end ps s bs p h.kept held in
      (
        s',
        run,
        coalesce_all (release p start bs),
        record {
          kept =
              Kept-same (without p ps) rs s' (coalesce_all (release p start bs)) (still listed)
                (free-Kept start end ps s bs p s' h.kept held run);
          once = λ q. omega (arith, h.once q, same q, times_cons q p rs);
        },
        λ q k ne was. free_others start p q k bs ne was,
      )
    where
      still : times p ps ≡ suc (times p rs) → (q : Addr) → In (without p ps) q ↔ In rs q
      still listed q = elim (Bool-cases (q == p)) [
        | inl at ↦ (
          λ i. absurd ((without-In p q ps i).0 ((==_iff q p).0 at)),
          λ i. absurd (
              omega
                (arith, (In-times p rs).0 (subst (In rs) ((==_iff q p).0 at) i), h.once p, listed)),
        )
        | inr off ↦
            (let ne : q ≢ p = ground arith in
              let count = same q ∙ times_ne q p rs ne in
              (
                λ i.
                    (In-times q rs).1
                      (subst (λ n. 0 < n) count ((In-times q ps).0 (without-In p q ps i).1)),
                λ i. In-without p q ps ne ((In-times q ps).1 (rw count ((In-times q rs).0 i))),
              ))
      ]

  -- So does that of what another client holds, and it leaves this one's in use.
  pub Ledger-release :
      (mine others : List Addr) (s : Heap) (bs : List Block) (p : Addr) (s' : Heap)
      → Ledger start end (mine ++ others) s bs
      → In others p
      → memory_free s p ≡ some s'
      → (times p mine ≡ 0)
        × (cs : List Block) × Ledger start end (mine ++ without p others) s' cs
        × ((q k : ℕ) → q ≢ p → InUse q k start bs → InUse q k start cs)
  Ledger-release mine others s bs p s' h i got =
      let (t, run, cs, ledger, still) =
        Ledger-free (mine ++ others) (mine ++ without p others) s bs p h
          (times_taken p mine others h.once i) in
      (
        times_others p mine others h.once i,
        cs,
        subst (λ x. Ledger start end (mine ++ without p others) x cs) (some_inj (sym run ∙ got))
            ledger,
        still,
      )
