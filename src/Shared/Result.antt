-- ===== src/Shared/Result.antt =====
-- A result with its error, for the parts whose errors are plain data.
use mathlib.Core.Path.{◌≡◌, refl}

pub data Result (E X : Type 0) : Type 0 where
  err : E → Result E X
  ok : X → Result E X

module _ {E : Type 0} where
  infixl 5 ◌>>=◌
  abbrev pub ◌>>=◌ : {X Y : Type 0} → Result E X → (X → Result E Y) → Result E Y
  err error >>= next = err error
  ok x >>= next = next x

  -- After a step that gave a value, the chain is its rest.
  pub >>=-ok :
      {X Y : Type 0} (first : Result E X) (next : X → Result E Y) {x : X}
      → first ≡ ok x
      → (first >>= next) ≡ next x
  >>=-ok first next e = rw e refl
