-- ===== src/Process/Pick.antt =====
-- Which process `scheduler_switch` of process_manager/process.c picks.
use cocos_os.Base.{
  ℕ, ◌<◌, ◌≤◌, ◌≡◌, refl, sym, ap, ◌⊎◌, inl, inr, Bool, true, false, ◌&&◌, Option, none, some, List,
  [], ◌∷◌, arith, ltb, Bool-cases,
}
use mathlib.Core.Path.{subst}
use cocos_os.Memory.{Addr}
use cocos_os.Process.{Process, is_waiting, pick, best_process, first_address}

abbrev pub In : Process → List Process → Type 0
In p [] = ⊥
In p (x ∷ xs) = (p ≡ x) ⊎ In p xs

-- Either no process of the list waits with a priority number below the best, and the choice stays; or
-- one of the least number is chosen.
abbrev pub Picked : ℕ → Option Addr → List Process → Option Addr → Type 0
Picked best_priority best ps r =
    ((r ≡ best)
      × ((q : Process) → In q ps → is_waiting q.state ≡ true → best_priority ≤ q.priority))
    ⊎ ((p : Process) × In p ps
        × (is_waiting p.state ≡ true)
        × (p.priority < best_priority)
        × (r ≡ some p.address)
        × ((q : Process) → In q ps → is_waiting q.state ≡ true → p.priority ≤ q.priority))

not_better : (b : Bool) (k n : ℕ) → (b && ltb k n) ≡ false → b ≡ true → n ≤ k
not_better b k n h w = ground arith

is_better : (b : Bool) (k n : ℕ) → (b && ltb k n) ≡ true → (b ≡ true) × (k < n)
is_better b k n h = ground arith

weaker : {a b c : ℕ} → a < b → b ≤ c → a ≤ c
weaker h k = omega arith

weaken_lt : {a b c : ℕ} → a < b → b < c → a < c
weaken_lt h k = omega arith

at_least :
    (n : ℕ) (q x : Process)
    → q ≡ x
    → (is_waiting x.state ≡ true → n ≤ x.priority)
    → is_waiting q.state ≡ true
    → n ≤ q.priority
at_least n q x e h = subst (λ (z : Process). is_waiting z.state ≡ true → n ≤ z.priority) (sym e) h

-- A process that does not better the best leaves the answer as it is.
Picked-skip :
    (n : ℕ) (best r : Option Addr) (x : Process) (xs : List Process)
    → (is_waiting x.state && ltb x.priority n) ≡ false
    → Picked n best xs r
    → Picked n best (x ∷ xs) r
Picked-skip n best r x xs worse (inl (e, least)) = inl (
  e,
  λ q i w. elim i [
    | inl at ↦ at_least n q x at (not_better _ x.priority n worse) w
    | inr later ↦ least q later w
  ],
)
Picked-skip n best r x xs worse (inr (p, i, w, low, e, least)) = inr (
  p,
  inr i,
  w,
  low,
  e,
  λ q j v. elim j [
    | inl at ↦ at_least p.priority q x at (λ u. weaker low (not_better _ x.priority n worse u)) v
    | inr later ↦ least q later v
  ],
)

Picked-take :
    (n : ℕ) (best r : Option Addr) (x : Process) (xs : List Process)
    → (is_waiting x.state && ltb x.priority n) ≡ true
    → Picked x.priority (some x.address) xs r
    → Picked n best (x ∷ xs) r
Picked-take n best r x xs better (inl (e, least)) = inr (
  x,
  inl refl,
  (is_better _ x.priority n better).0,
  (is_better _ x.priority n better).1,
  e,
  λ q i w. elim i [
    | inl at ↦ at_least x.priority q x at (λ u. omega arith) w
    | inr later ↦ least q later w
  ],
)
Picked-take n best r x xs better (inr (p, i, w, low, e, least)) = inr (
  p,
  inr i,
  w,
  weaken_lt low (is_better _ x.priority n better).1,
  e,
  λ q j v. elim j [
    | inl at ↦ at_least p.priority q x at (λ u. omega arith) v
    | inr later ↦ least q later v
  ],
)

pub pick-Picked :
    (n : ℕ) (best : Option Addr) (ps : List Process) → Picked n best ps (pick n best ps)
unfolding pick
pick-Picked n best [] = inl (refl, λ q i w. absurd i)
pick-Picked n best (x ∷ xs) = elim (Bool-cases (is_waiting x.state && ltb x.priority n)) [
  | inl better ↦
      rw better (Picked-take n best _ x xs better (pick-Picked x.priority (some x.address) xs))
  | inr worse ↦ rw worse (Picked-skip n best _ x xs worse (pick-Picked n best xs))
]

abbrev from_pick : List Process → Option Addr → Addr
from_pick ps o = elim o [ none ↦ first_address ps | some a ↦ a ]

-- `scheduler_switch` chooses, among the waiting processes whose priority number is below 255, one
-- of the least number; where there is none it chooses the head of the list, whatever its state.
pub best_process_lem :
    (ps : List Process)
    → ((best_process ps ≡ first_address ps)
        × ((q : Process) → In q ps → is_waiting q.state ≡ true → 255 ≤ q.priority))
      ⊎ ((p : Process) × In p ps
          × (is_waiting p.state ≡ true)
          × (p.priority < 255)
          × (best_process ps ≡ p.address)
          × ((q : Process) → In q ps → is_waiting q.state ≡ true → p.priority ≤ q.priority))
best_process_lem ps = elim (pick-Picked 0xff none ps) [
  | inl (e, least) ↦ inl (ap (from_pick ps) e, least)
  | inr (p, i, w, low, e, least) ↦ inr (p, i, w, low, ap (from_pick ps) e, least)
]
