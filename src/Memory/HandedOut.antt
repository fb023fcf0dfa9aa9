-- ===== src/Memory/HandedOut.antt =====
-- Memory_alloc and Memory_free of kernel/memory/memory.c keep account of what is handed out.
use cocos_os.Base.{
  In, ℕ, ◌+◌, ◌^◌, ◌<◌, ◌≤◌, ◌≡◌, ◌≢◌, sym, ap, ◌∙◌, ◌⊎◌, inl, inr, Option, none, some, List, [],
  ◌∷◌, arith, ◌==◌, if◌then◌else◌, ◌↔◌, Bool-cases, some_inj,
}
use mathlib.Core.Path.{subst}
use cocos_os.Memory.{Addr, null, header_size, Heap, align4, memory_alloc, memory_free}
use cocos_os.Memory.Blocks.{Block, Positive, alloc, release, coalesce_all}
use cocos_os.Memory.Layout.{IsHeap}
use cocos_os.Memory.Alloc.{Served, memory_alloc_lem}
use cocos_os.Memory.Free.{IsPayload, memory_free_lem}
use cocos_os.Memory.Join.{Joined, coalesce_all-Joined}
use cocos_os.Memory.Safety.{InUse, InUse-IsPayload, Safe, alloc-Safe}
use cocos_os.Memory.Payloads.{
  InUse-coalesce, coalesce-InUse, InUse-release, release-InUse, Only, alloc-Only,
}

abbrev pub without : Addr → List Addr → List Addr
without p [] = []
without p (q ∷ qs) = let rest = without p qs in if q == p then rest else q ∷ rest

-- The heap holds these blocks, no two free ones beside each other, and what is handed out is what is in
-- use.
pub record Kept (start end : Addr) (ps : List Addr) (s : Heap) (bs : List Block) : Type 0 where
  pub heap_ok : IsHeap s bs
  pub joined : Joined bs
  pub begins : s.heap_start ≡ start
  pub ends : s.heap_end ≡ end
  pub handed_out : (q : Addr) → In ps q → (k : ℕ) × InUse q k start bs
  pub only : (q k : ℕ) → InUse q k start bs → In ps q

pub without-In : (p q : Addr) (ps : List Addr) → In (without p ps) q → (q ≢ p) × In ps q
without-In p q [] h = absurd h
without-In p q (r ∷ ps) h = elim (Bool-cases (r == p)) [
  | inl at ↦ (let (ne, i) = without-In p q ps (rw at at h) in (ne, inr i))
  | inr off ↦ elim (rw off at h) [
    | inl e ↦ (λ z. absurd (ground arith), inl e)
    | inr i ↦ (let (ne, j) = without-In p q ps i in (ne, inr j))
  ]
]

pub In-without : (p q : Addr) (ps : List Addr) → q ≢ p → In ps q → In (without p ps) q
In-without p q [] ne h = h
In-without p q (r ∷ ps) ne h = elim (Bool-cases (r == p)) [
  | inl at ↦ elim h [ inl e ↦ absurd (ground arith) | inr i ↦ rw at (In-without p q ps ne i) ]
  | inr off ↦ elim h [ inl e ↦ rw off (inl e) | inr i ↦ rw off (inr (In-without p q ps ne i)) ]
]

InUse-coalesce_all : (q k a : ℕ) (bs : List Block) → InUse q k a bs ↔ InUse q k a (coalesce_all bs)
InUse-coalesce_all q k a [] = (λ h. h, λ h. h)
InUse-coalesce_all q k a (b ∷ bs) = (InUse-coalesce q k a b bs, coalesce-InUse q k a b bs)

-- First fit's answer to a call that returned an address.
given :
    (s : Heap) (size : ℕ) (p : Addr) (s' : Heap) (o : Option (Addr × List Block))
    → Served s size o
    → memory_alloc s size ≡ some (p, s')
    → p ≢ null
    → (cs : List Block) × (o ≡ some (p, cs))
      × IsHeap s' cs
      × (s'.heap_start ≡ s.heap_start)
      × (s'.heap_end ≡ s.heap_end)
given s size p s' none run got ne =
    absurd (ne (sym (ap (λ (r : Addr × Heap). r.0) (some_inj (sym run ∙ got)))))
given s size p s' (some (q, cs)) (t, run, heap, start, end) got ne =
    let same = some_inj (sym run ∙ got) in
    let at : q ≡ p = ap (λ (r : Addr × Heap). r.0) same in
    let as_s : t ≡ s' = ap (λ (r : Addr × Heap). r.1) same in
    (
      cs,
      ap (λ x. some (x, cs)) at,
      subst (λ x. IsHeap x cs) as_s heap,
      subst (λ (x : Heap). x.heap_start ≡ s.heap_start) as_s start,
      subst (λ (x : Heap). x.heap_end ≡ s.heap_end) as_s end,
    )

InUse-Positive : (q k a : ℕ) (bs : List Block) → Positive bs → InUse q k a bs → 0 < k
InUse-Positive q k a [] pos h = absurd h
InUse-Positive q k a (b ∷ bs) pos (inl h) = omega arith
InUse-Positive q k a (b ∷ bs) pos (inr h) = InUse-Positive q k (a + header_size + b.size) bs pos.1 h

-- The payload at `p` is new and has room, and the others are as they were.
abbrev pub Added : ℕ → Addr → Addr → List Block → List Block → Type 0
Added size p start bs cs =
    ((n : ℕ) × (size ≤ n) × InUse p n start cs)
    × ((q k : ℕ) → InUse q k start bs → (q ≢ p) × InUse q k start cs)

Safe-Added :
    (size start : ℕ) (bs : List Block) (p : Addr) (cs : List Block)
    → 0 < size
    → size + 3 < 2 ^ 32
    → Positive bs
    → Safe (align4 size) start bs (some (p, cs))
    → Added size p start bs cs
Safe-Added size start bs p cs pos small sizes ((n, room, used), others) = (
  (n, omega arith, used),
  λ q k was. (λ e. absurd (apart q k was e (others q k was).1), (others q k was).0),
)
  where
    apart : (q k : ℕ) → InUse q k start bs → q ≡ p → (q + k ≤ p) ⊎ (p + align4 size ≤ q) → ⊥
    apart q k was e (inl low) = omega (arith, InUse-Positive q k start bs sizes was)
    apart q k was e (inr high) = omega arith

pub alloc-Kept :
    (start end : Addr) (ps : List Addr) (s : Heap) (bs : List Block) (size : ℕ) (p : Addr)
    (s' : Heap)
    → Kept start end ps s bs
    → 0 < size
    → size + 3 < 2 ^ 32
    → memory_alloc s size ≡ some (p, s')
    → p ≢ null
    → (cs : List Block) × Kept start end (p ∷ ps) s' cs × Added size p start bs cs
alloc-Kept start end ps s bs size p s' h pos small got ne =
    let (cs, e, heap, at, to) =
      given s size p s' (alloc (align4 size) s.heap_start bs)
        (memory_alloc_lem s bs size h.heap_ok pos small) got ne in
    let e' : alloc (align4 size) start bs ≡ some (p, cs) =
      ap (λ a. alloc (align4 size) a bs) (sym h.begins) ∙ e in
    let safe : Safe (align4 size) start bs (some (p, cs)) =
      subst (Safe (align4 size) start bs) e' (alloc-Safe (align4 size) start bs) in
    let only : Only start bs (some (p, cs)) =
      subst (Only start bs) e' (alloc-Only (align4 size) start bs) in
    (
      cs,
      record {
        heap_ok = heap;
        joined = (only.1 h.joined).0;
        begins = at ∙ h.begins;
        ends = to ∙ h.ends;
        handed_out = λ q i. elim i [
          | inl same ↦
              (let (n, room, used) = safe.0 in (n, subst (λ r. InUse r n start cs) (sym same) used))
          | inr old ↦ (let (k, used) = h.handed_out q old in (k, (safe.1 q k used).0))
        ];
        only = λ q k used. elim (only.0 q k used) [
          | inl same ↦ inl same
          | inr old ↦ inr (h.only q k old)
        ];
      },
      Safe-Added size start bs p cs pos small h.heap_ok.sizes safe,
    )

-- What can be freed, and what freeing it leaves in use.
pub free_others :
    (start p q k : Addr) (bs : List Block)
    → q ≢ p
    → InUse q k start bs
    → InUse q k start (coalesce_all (release p start bs))
free_others start p q k bs ne was =
    (InUse-coalesce_all q k start (release p start bs)).0 (InUse-release p q k start bs ne was)

pub free-Kept :
    (start end : Addr) (ps : List Addr) (s : Heap) (bs : List Block) (p : Addr) (s' : Heap)
    → Kept start end ps s bs
    → In ps p
    → memory_free s p ≡ some s'
    → Kept start end (without p ps) s' (coalesce_all (release p start bs))
free-Kept start end ps s bs p s' h i got =
    let (n, used) = h.handed_out p i in
    let (t, run, heap, at, to) =
      memory_free_lem s bs p h.heap_ok
        (subst (λ a. IsPayload p a bs) (sym h.begins) (InUse-IsPayload p n start bs used)) in
    let as_s : t ≡ s' = some_inj (sym run ∙ got) in
    record {
      heap_ok =
          subst (λ x. IsHeap x (coalesce_all (release p start bs))) as_s
            (subst (λ a. IsHeap t (coalesce_all (release p a bs))) h.begins heap);
      joined = coalesce_all-Joined (release p start bs);
      begins = subst (λ (x : Heap). x.heap_start ≡ start) as_s (at ∙ h.begins);
      ends = subst (λ (x : Heap). x.heap_end ≡ end) as_s (to ∙ h.ends);
      handed_out = λ q j.
          let (ne, old) = without-In p q ps j in
          let (k, was) = h.handed_out q old in (k, free_others start p q k bs ne was);
      only = λ q k now.
          let (ne, was) =
            release-InUse p q k start bs
              ((InUse-coalesce_all q k start (release p start bs)).1 now) in
          In-without p q ps ne (h.only q k was);
    }
