-- ===== src/Cli/Tests.antt =====
-- The command line at concrete arguments, and the theorems on it applied to them.
use bento.Shared.{ℕ, ◌≡◌, ◌↔◌, refl, ◌<◌, List, [], ◌∷◌, length, true, some}
use bento.Shared.Result.{Result, ok, err}
use bento.Shared.Parse.{chars}
use bento.Shared.Texts.{Text}
use bento.Cli.Parse.{
  Flags, no_flags, Error, needs_argument, not_defined, get_elem?, starts_with, trim_start_matches,
  split_once, insert, with_positionals, with_boolean, with_value, split_inline, take_boolean,
  take_value, take_flag, take_argument, turn, parse_from, parse_flags,
}
use bento.Cli.Parse.Answers.{parse_from-total}
use bento.Cli.Parse.Grammar.{Reading}
use bento.Cli.Parse.Grammar.Accepts.{parse_flags_iff}

abbrev value_flags : List Text
value_flags = chars "image" ∷ chars "memory" ∷ []

abbrev bool_flags : List Text
bool_flags = chars "json" ∷ []

abbrev arguments : List Text
arguments =
    chars "--image=base"
    ∷ chars "-memory"
    ∷ chars "2G"
    ∷ chars "--json"
    ∷ chars "--"
    ∷ chars "-x"
    ∷ []

abbrev expected : Flags
expected = record {
  positionals = chars "-x" ∷ [];
  values = (chars "memory", chars "2G") ∷ (chars "image", chars "base") ∷ [];
  booleans = (chars "json", true) ∷ [];
}

-- Flags of each form, a flag that lacks its value, and a flag without a name.
parsed :
    (parse_flags arguments value_flags bool_flags ≡ some (ok expected))
    × (parse_flags (chars "--memory" ∷ []) value_flags bool_flags
        ≡ some (err (needs_argument (chars "memory"))))
    × (parse_flags (chars "---" ∷ []) value_flags bool_flags ≡ some (err (not_defined [])))
unfolding parse_flags parse_from turn take_argument take_flag take_value take_boolean split_inline
    split_once trim_start_matches starts_with get_elem? insert with_positionals with_boolean
    with_value
parsed = (refl, refl, refl)

parse_from-total_example :
    (r : Result Error Flags) × ((fuel : ℕ)
      → length arguments < fuel
      → parse_from arguments value_flags bool_flags fuel 0 no_flags ≡ some r)
parse_from-total_example = parse_from-total arguments value_flags bool_flags

parse_flags_iff_example :
    (parse_flags arguments value_flags bool_flags ≡ some (ok expected))
    ↔ Reading value_flags bool_flags arguments no_flags expected
parse_flags_iff_example = parse_flags_iff arguments value_flags bool_flags expected
