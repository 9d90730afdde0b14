-- ===== src/Cli/Parse/Grammar/Accepts.antt =====
-- parse_flags accepts what the grammar says (crates/cli/src/parse.rs).
use bento.Shared.{
  ℕ, zero, suc, ◌≡◌, ◌≢◌, ◌↔◌, ◌<◌, refl, ◌∙◌, arith, Bool, true, false, List, [], ◌∷◌, length,
  drop, Option, none, some, nat_eq, inl, inr,
}
use bento.Shared.Result.{ok}
use bento.Shared.Texts.{Text, text_beq, text_beq_iff, text_eq}
use bento.Cli.Parse.{
  starts_with, Flags, no_flags, stop, go, dash, two_dashes, with_positionals, with_boolean,
  take_boolean, take_value, take_flag, take_argument, turn, parse_from, parse_flags,
}
use bento.Cli.Parse.Grammar.{
  IsSpelled, IsPositional, Means, Reading, nothing, dashes, positional, boolean, joined, spaced,
}
use bento.Cli.Parse.Grammar.Spelling.{split_inline-IsSpelled}
use bento.Cli.Parse.Grammar.Reads.{get_elem?-drop, get_elem?-past, Reads-parse_from}

module _ (args value_flags bool_flags : List Text) where
  abbrev Reads : List Text → Flags → Flags → Type 0
  Reads = Reading value_flags bool_flags

  turn-found :
      (index : ℕ) (f : Flags) {a : Text} {rest : List Text}
      → drop index args ≡ a ∷ rest
      → turn args value_flags bool_flags index f
        ≡ take_argument args value_flags bool_flags a index f
  unfolding turn
  turn-found index f here = rw (turn, (get_elem?-drop args index here).0) refl

  -- A spelled flag goes to its name.
  turn-IsSpelled :
      (index : ℕ) (f : Flags) {a : Text} {rest : List Text} (name : Text) (inline : Option Text)
      → drop index args ≡ a ∷ rest
      → IsSpelled a name inline
      → turn args value_flags bool_flags index f
        ≡ take_flag args value_flags bool_flags (name, inline) index f
  unfolding take_argument starts_with
  turn-IsSpelled index f {a} name inline here spelled =
      turn-found index f here
      ∙ rw
          (
            take_argument,
            lacks two_dashes spelled.4,
            starts,
            lacks dash spelled.3,
            split_inline-IsSpelled a name inline spelled,
          )
          refl
    where
      lacks : (t : Text) → a ≢ t → text_beq a t ≡ false
      lacks t h = ground (arith, h, text_beq_iff a t)

      starts : starts_with b'-' a ≡ true
      starts = rw (starts_with, spelled.0.1) refl

  take_argument-IsPositional :
      (a : Text) (index : ℕ) (f : Flags)
      → IsPositional a
      → take_argument args value_flags bool_flags a index f
        ≡ stop (ok (with_positionals (drop index args) f))
  unfolding take_argument starts_with
  take_argument-IsPositional a index f (inl one) = rw one refl
  take_argument-IsPositional [] index f (inr plain) = refl
  take_argument-IsPositional (c ∷ cs) index f (inr plain) = rw plain refl

  take_boolean-Means :
      (name : Text) (inline : Option Text) (b : Bool) (index : ℕ) (f : Flags)
      → Means inline b
      → take_boolean name inline index f ≡ go (suc index) (with_boolean name b f)
  unfolding take_boolean
  take_boolean-Means name none b index f means = rw means refl
  take_boolean-Means name (some value) true index f means = rw means refl
  take_boolean-Means name (some value) false index f means = rw means refl

  stepped :
      (fuel index : ℕ) (f : Flags) {next : ℕ} {h g : Flags}
      → turn args value_flags bool_flags index f ≡ go next h
      → parse_from args value_flags bool_flags fuel next h ≡ some (ok g)
      → parse_from args value_flags bool_flags (suc fuel) index f ≡ some (ok g)
  unfolding parse_from
  stepped fuel index f goes rest = rw (parse_from, goes) rest

  ended :
      (fuel index : ℕ) (f : Flags) {g : Flags}
      → turn args value_flags bool_flags index f ≡ stop (ok g)
      → parse_from args value_flags bool_flags (suc fuel) index f ≡ some (ok g)
  unfolding parse_from
  ended fuel index f stops = rw (parse_from, stops) refl

  parse_from-Reads :
      (fuel : ℕ) {rest : List Text} {f g : Flags} (d : Reads rest f g) (index : ℕ)
      → drop index args ≡ rest
      → length rest < fuel
      → parse_from args value_flags bool_flags fuel index f ≡ some (ok g)
  unfolding turn take_argument take_flag take_value
  parse_from-Reads zero d index here more = absurd (omega (arith, more))
  parse_from-Reads (suc fuel) (nothing {f}) index here more =
      ended fuel index f (rw (turn, get_elem?-past args index here) refl)
  parse_from-Reads (suc fuel) (dashes {a} {rest} {f} two result) index here more =
      ended fuel index f (
        turn-found index f here
        ∙ rw (take_argument, two, (get_elem?-drop args index here).1, result) refl)
  parse_from-Reads (suc fuel) (positional {a} {rest} {f} plain result) index here more =
      ended fuel index f (
        turn-found index f here
        ∙ take_argument-IsPositional a index f plain
        ∙ rw (here, result) refl)
  parse_from-Reads (suc fuel) (boolean {f = f} name inline b spelled known means d) index here
        more =
      stepped fuel index f
        (turn-IsSpelled index f name inline here spelled
          ∙ rw (take_flag, known) (take_boolean-Means name inline b index f means))
        (parse_from-Reads fuel d (suc index) (get_elem?-drop args index here).1
          (omega (arith, more)))
  parse_from-Reads (suc fuel) (joined {f = f} name value spelled other known d) index here more =
      stepped fuel index f
        (turn-IsSpelled index f name (some value) here spelled
          ∙ rw (take_flag, other, known, take_value) refl)
        (parse_from-Reads fuel d (suc index) (get_elem?-drop args index here).1
          (omega (arith, more)))
  parse_from-Reads (suc fuel) (spaced {f = f} name spelled other known d) index here more =
      let later = get_elem?-drop args (suc index) (get_elem?-drop args index here).1 in
      stepped fuel index f
        (turn-IsSpelled index f name none here spelled
          ∙ rw (take_flag, other, known, take_value, later.0) refl)
        (parse_from-Reads fuel d (suc (suc index)) later.1 (omega (arith, more)))

-- parse_flags accepts exactly the command lines of the grammar, and its flags are what the grammar reads.
pub parse_flags_iff :
    (args value_flags bool_flags : List Text) (flags : Flags)
    → (parse_flags args value_flags bool_flags ≡ some (ok flags))
      ↔ Reading value_flags bool_flags args no_flags flags
unfolding parse_flags
parse_flags_iff args value_flags bool_flags flags = (
  Reads-parse_from args value_flags bool_flags (suc (length args)) 0 no_flags,
  λ d. parse_from-Reads args value_flags bool_flags (suc (length args)) d 0 refl (omega arith),
)
