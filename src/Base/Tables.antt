-- ===== src/Base/Tables.antt =====
-- Files as a table of names and contents, searched from the front.
use mathlib.Core.Path.{◌≡◌, refl, ap}
use mathlib.Core.Logic.{inl, inr}
use mathlib.Core.List.{List, [], ◌∷◌}
use mathlib.Core.Option.{Option, none, some}
use Prim.Native.Nat.{ℕ}
use cocos_os.Base.Tests.{if◌then◌else◌, Bool-cases}
use cocos_os.Base.Strings.{Text, str_eq}

-- Names and contents.
abbrev pub FileTable : Type 0
FileTable = List (Text × List ℕ)

unfoldable pub lookup : Text → FileTable → Option (List ℕ)
unfolding str_eq
lookup name [] = none
lookup name ((n, c) ∷ rows) = if str_eq n name then some c else lookup name rows

-- The first file of that name gets the content.
unfoldable pub put : Text → List ℕ → FileTable → FileTable
unfolding str_eq
put name content [] = []
put name content ((n, c) ∷ rows) =
    let rest = put name content rows in if str_eq n name then (n, content) ∷ rows else (n, c) ∷ rest

pub put-put :
    (name : Text) (c d : List ℕ) (rows : FileTable) → put name c (put name d rows) ≡ put name c rows
unfolding put
put-put name c d [] = refl
put-put name c d ((n, x) ∷ rows) = elim (Bool-cases (str_eq n name)) [
  | inl here ↦ rw (here, here)
  | inr other ↦ rw (other, other) (ap (λ r. (n, x) ∷ r) (put-put name c d rows))
]
