-- ===== src/Memory/Counts.antt =====
-- How often a list of addresses handed out by kernel/memory/memory.c has an address.
use cocos_os.Base.{
  In, ℕ, suc, ◌+◌, ◌≤◌, ◌<◌, ◌≡◌, ◌≢◌, refl, sym, ap, ◌∙◌, inl, inr, List, [], ◌∷◌, ◌++◌, arith,
  ◌==◌, if◌then◌else◌, ◌↔◌, Bool-cases, ==_iff, ==_of_ne, ==_self,
}
use cocos_os.Memory.{Addr}
use mathlib.Core.Path.{subst}
use cocos_os.Memory.HandedOut.{without}

-- How often the address is listed.
abbrev pub times : Addr → List Addr → ℕ
times q [] = 0
times q (p ∷ ps) = let rest = times q ps in if q == p then suc rest else rest

pub times-append : (q : Addr) (ps rs : List Addr) → times q (ps ++ rs) ≡ times q ps + times q rs
times-append q [] rs = omega arith
times-append q (p ∷ ps) rs = elim (Bool-cases (q == p)) [
  | inl at ↦ rw at (omega (arith, times-append q ps rs))
  | inr off ↦ rw off (times-append q ps rs)
]

pub times_self : (p : Addr) (ps : List Addr) → times p (p ∷ ps) ≡ suc (times p ps)
times_self p ps = rw (==_self p)

pub times_ne : (q p : Addr) (ps : List Addr) → q ≢ p → times q (p ∷ ps) ≡ times q ps
times_ne q p ps ne = rw (==_of_ne ne)

pub times_cons : (q p : Addr) (ps : List Addr) → times q (p ∷ ps) ≡ times q (p ∷ []) + times q ps
times_cons q p ps = elim (Bool-cases (q == p)) [
  | inl at ↦ rw at (omega arith)
  | inr off ↦ rw off (omega arith)
]

pub times_middle :
    (q p : Addr) (ps rs : List Addr) → times q (ps ++ (p ∷ rs)) ≡ times q (p ∷ (ps ++ rs))
times_middle q p ps rs = omega (
  arith,
  times-append q ps (p ∷ rs),
  times-append q ps rs,
  times_cons q p rs,
  times_cons q p (ps ++ rs),
)

pub In-times : (q : Addr) (ps : List Addr) → In ps q ↔ (0 < times q ps)
In-times q [] = (λ h. absurd h, λ h. absurd (omega arith))
In-times q (p ∷ ps) = elim (Bool-cases (q == p)) [
  | inl at ↦ rw at (λ h. omega arith, λ h. inl (ground arith))
  | inr off ↦ rw off (
    λ h. elim h [ inl e ↦ absurd (ground arith) | inr i ↦ (In-times q ps).0 i ],
    λ h. inr ((In-times q ps).1 h),
  )
]

pub times-without_self : (p : Addr) (ps : List Addr) → times p (without p ps) ≡ 0
times-without_self p [] = refl
times-without_self p (q ∷ qs) = elim (Bool-cases (q == p)) [
  | inl at ↦ rw at (times-without_self p qs)
  | inr off ↦
      (let apart : p ≢ q = λ e. absurd (ground arith) in
        rw (off, ==_of_ne apart) (times-without_self p qs))
]

pub times-without_ne : (q p : Addr) (ps : List Addr) → q ≢ p → times q (without p ps) ≡ times q ps
times-without_ne q p [] ne = refl
times-without_ne q p (r ∷ rs) ne = elim (Bool-cases (r == p)) [
  | inl at ↦
      (let apart : q ≢ r = λ e. absurd (ne (e ∙ (==_iff r p).0 at)) in
        rw (at, ==_of_ne apart) (times-without_ne q p rs ne))
  | inr off ↦ rw off (
      times_cons q r (without p rs)
      ∙ ap (λ n. times q (r ∷ []) + n) (times-without_ne q p rs ne)
      ∙ sym (times_cons q r rs))
]

pub times_new :
    (ps : List Addr) (p : Addr)
    → ((q : Addr) → times q ps ≤ 1)
    → times p ps ≡ 0
    → (q : Addr) → times q (p ∷ ps) ≤ 1
times_new ps p h new q = elim (Bool-cases (q == p)) [
  | inl at ↦
      (let same : times q ps ≡ 0 = ap (λ x. times x ps) ((==_iff q p).0 at) ∙ new in
        rw at (omega arith))
  | inr off ↦ rw off (h q)
]

-- Where no address is listed twice, one list's is not the other's.
pub times_others :
    (p : Addr) (mine others : List Addr)
    → ((q : Addr) → times q (mine ++ others) ≤ 1)
    → In others p
    → times p mine ≡ 0
times_others p mine others once i =
    omega (arith, (In-times p others).0 i, once p, times-append p mine others)

-- Taking one address out of the other list takes it out of both.
pub times_taken :
    (p : Addr) (mine others : List Addr)
    → ((q : Addr) → times q (mine ++ others) ≤ 1)
    → In others p
    → (q : Addr) → times q (mine ++ others) ≡ times q (p ∷ (mine ++ without p others))
times_taken p mine others once i q = elim (Bool-cases (q == p)) [
  | inl at ↦
      subst (λ x. times x (mine ++ others) ≡ times x (p ∷ (mine ++ without p others)))
        (sym ((==_iff q p).0 at))
        (omega (
          arith,
          (In-times p others).0 i,
          once p,
          times-append p mine others,
          times-append p mine (without p others),
          times-without_self p others,
          times_self p (mine ++ without p others),
        ))
  | inr off ↦
      (let ne : q ≢ p = ground arith in
        omega (
          arith,
          times-append q mine others,
          times-append q mine (without p others),
          times-without_ne q p others ne,
          times_ne q p (mine ++ without p others) ne,
        ))
]
