-- ===== src/Ring.antt =====
-- The ring that kernel/events/event.c and kernel/input/input.c each have, over the type of their
-- entries and the size of their array. Nothing counts the entries: head and tail alone tell.
pub mod Lossy
pub mod Refine
pub mod Observed
use cocos_os.Base.{ℕ, ◌+◌, ◌%◌, Option, none, some, List, [], ◌∷◌, ◌==◌, if◌then◌else◌, update}

pub record Ring {ℓ} (A : Type ℓ) : Type ℓ where
  pub queue : ℕ → A
  pub head : ℕ
  pub tail : ℕ

-- What a client asks for, in order.
pub data Op {ℓ} (A : Type ℓ) : Type ℓ where
  put : A → Op A
  get : Op A

module _ {ℓ} {A : Type ℓ} where
  -- The array keeps what it held.
  unfoldable pub init : Ring A → Ring A
  init r = record r { head = 0; tail = 0 }

  unfoldable pub push : ℕ → Ring A → A → Ring A
  push size r e = record r { queue = update r.queue r.tail e; tail = (r.tail + 1) % size }

  -- `none` is the result 0, with nothing written through the pointer.
  unfoldable pub poll : ℕ → Ring A → Option A × Ring A
  poll size r =
      if r.head == r.tail
      then (none, r)
      else (some (r.queue r.head), record r { head = (r.head + 1) % size })

  -- What the polls among the calls return.
  unfoldable pub run : ℕ → Ring A → List (Op A) → List (Option A)
  run size r [] = []
  run size r (put e ∷ ops) = run size (push size r e) ops
  run size r (get ∷ ops) = let (out, r') = poll size r in out ∷ run size r' ops
