-- ===== src/Ring/Lossy.antt =====
-- What the ring of kernel/events/event.c and kernel/input/input.c promises: a queue that forgets
-- everything when one entry too many comes.
use cocos_os.Base.{ℕ, ◌+◌, Option, none, some, List, [], ◌∷◌, ◌++◌, ◌==◌, if◌then◌else◌, length}
use cocos_os.Ring.{Op, put, get}

module _ {ℓ} {A : Type ℓ} where
  unfoldable pub push : ℕ → List A → A → List A
  push size q e = if length q + 1 == size then [] else q ++ (e ∷ [])

  unfoldable pub poll : List A → Option A × List A
  poll [] = (none, [])
  poll (e ∷ q) = (some e, q)

  unfoldable pub run : ℕ → List A → List (Op A) → List (Option A)
  run size q [] = []
  run size q (put e ∷ ops) = run size (push size q e) ops
  run size q (get ∷ ops) = let (out, q') = poll q in out ∷ run size q' ops
