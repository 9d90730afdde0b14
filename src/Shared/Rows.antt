-- ===== src/Shared/Rows.antt =====
-- A table by its key, as a list of pairs.
use Prim.Native.String.{String}
use mathlib.Core.Path.{◌≡◌, refl}
use mathlib.Core.List.{List, [], ◌∷◌}
use mathlib.Core.Option.{Option, none, some}
use native.Mathlib.Omega.{arith}
use bento.Shared.Tests.{if◌then◌else◌}
use bento.Shared.Equality.{◌==◌, ==_iff, string_eq}

-- `SELECT … WHERE key = ?`
unfoldable pub row {ℓ} : {A : Type ℓ} → String → List (String × A) → Option A
row key [] = none
row key ((k, a) ∷ rows) = if k == key then some a else row key rows

-- `INSERT OR REPLACE`
unfoldable pub put {ℓ} : {A : Type ℓ} → String → A → List (String × A) → List (String × A)
put key a [] = (key, a) ∷ []
put key a ((k, b) ∷ rows) = if k == key then (key, a) ∷ rows else (k, b) ∷ put key a rows

-- A row put is the row found under its key, and the other keys keep theirs.
pub row-put :
    {A : Type 0} (j k : String) (a : A) (rows : List (String × A))
    → row j (put k a rows) ≡ (if k == j then some a else row j rows)
unfolding row put
row-put j k a [] = refl
row-put j k a ((i, b) ∷ rows) =
    ground (arith, ==_iff k j, ==_iff i k, ==_iff i j, row-put j k a rows)
