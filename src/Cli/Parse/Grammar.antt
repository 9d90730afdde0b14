-- ===== src/Cli/Parse/Grammar.antt =====
-- The command lines that parse_flags accepts, as a grammar (crates/cli/src/parse.rs): how an argument spells a
-- flag, and what a list of arguments adds to the flags read so far.
pub mod Spelling
pub mod Reads
pub mod Accepts
use bento.Shared.{
  ℕ, suc, ◌≡◌, ◌≢◌, ◌⊎◌, Bool, true, false, List, [], ◌∷◌, ◌++◌, replicate, Option, none, some,
  contains, nat_eq,
}
use bento.Shared.Parse.{chars}
use bento.Shared.Texts.{Text, text_eq}
use bento.Cli.Parse.{
  starts_with, Flags, with_positionals, with_boolean, with_value, dash, two_dashes,
}

-- The value that is joined to a flag.
abbrev pub written : Option Text → Text
written none = []
written (some value) = b'=' ∷ value

-- An argument that is dashes, a name and the value joined to it.
abbrev pub IsSpelled : (argument name : Text) → Option Text → Type 0
IsSpelled argument name inline =
    ((n : ℕ) × (argument ≡ replicate (suc n) b'-' ++ (name ++ written inline)))
    × (starts_with b'-' name ≡ false)
    × (contains name b'=' ≡ false)
    × (argument ≢ dash)
    × (argument ≢ two_dashes)

-- An argument that ends the flags, and is not one.
abbrev pub IsPositional : Text → Type 0
IsPositional argument = (argument ≡ dash) ⊎ (starts_with b'-' argument ≡ false)

-- What the value joined to a switch means.
abbrev pub Means : Option Text → Bool → Type 0
Means none b = b ≡ true
Means (some value) true = value ≡ chars "true"
Means (some value) false = value ≡ chars "false"

module _ (value_flags bool_flags : List Text) where
  -- `Reading args before after`
  pub data Reading : List Text → Flags → Flags → Type 0 where
    nothing : {f : Flags} → Reading [] f f
    dashes :
        {a : Text} {rest : List Text} {f g : Flags}
        → a ≡ two_dashes
        → g ≡ with_positionals rest f
        → Reading (a ∷ rest) f g
    positional :
        {a : Text} {rest : List Text} {f g : Flags}
        → IsPositional a
        → g ≡ with_positionals (a ∷ rest) f
        → Reading (a ∷ rest) f g
    boolean :
        {a : Text} {rest : List Text} {f g : Flags} (name : Text) (inline : Option Text) (b : Bool)
        → IsSpelled a name inline
        → contains bool_flags name ≡ true
        → Means inline b
        → Reading rest (with_boolean name b f) g
        → Reading (a ∷ rest) f g
    joined :
        {a : Text} {rest : List Text} {f g : Flags} (name value : Text)
        → IsSpelled a name (some value)
        → contains bool_flags name ≡ false
        → contains value_flags name ≡ true
        → Reading rest (with_value name value f) g
        → Reading (a ∷ rest) f g
    spaced :
        {a value : Text} {rest : List Text} {f g : Flags} (name : Text)
        → IsSpelled a name none
        → contains bool_flags name ≡ false
        → contains value_flags name ≡ true
        → Reading rest (with_value name value f) g
        → Reading (a ∷ value ∷ rest) f g
