-- ===== src/Cli/Parse.antt =====
-- crates/cli/src/parse.rs: the flags of a command line. Its loop on an index runs on fuel. A HashMap is the list
-- of its entries, and an error is a value that names what its message shows.
pub mod Answers
pub mod Grammar
use bento.Shared.{
  ℕ, zero, suc, ◌+◌, Bool, true, false, ◌||◌, not, if◌then◌else◌, nat_beq, List, [], ◌∷◌, ◌++◌,
  length, drop, select, Option, none, some, contains, nat_eq,
}
use bento.Shared.Result.{Result, ok, err}
use bento.Shared.Parse.{chars}
use bento.Shared.Texts.{Text, text_beq, text_eq}

-- `get`
unfoldable pub get_elem? {ℓ} : {A : Type ℓ} → List A → ℕ → Option A
get_elem? [] index = none
get_elem? (x ∷ xs) zero = some x
get_elem? (x ∷ xs) (suc index) = get_elem? xs index

unfoldable pub starts_with : ℕ → Text → Bool
starts_with c [] = false
starts_with c (d ∷ ds) = nat_beq d c

unfoldable pub trim_start_matches : ℕ → Text → Text
trim_start_matches c [] = []
trim_start_matches c (d ∷ ds) = if nat_beq d c then trim_start_matches c ds else d ∷ ds

-- The texts before and after the first such character.
unfoldable pub split_once : (separator : ℕ) → Text → Option (Text × Text)
split_once separator [] = none
split_once separator (c ∷ cs) =
    if nat_beq c separator then some ([], cs) else elim (split_once separator cs) [
      | none ↦ none
      | some (front, back) ↦ some (c ∷ front, back)
    ]

-- `insert`
unfoldable pub insert {ℓ} : {A : Type ℓ} → Text → A → List (Text × A) → List (Text × A)
insert name value entries = (name, value) ∷ select (λ e. not (text_beq e.0 name)) entries

pub record Flags : Type 0 where
  pub positionals : List Text
  pub values : List (Text × Text)
  pub booleans : List (Text × Bool)

abbrev pub no_flags : Flags
no_flags = record { positionals = []; values = []; booleans = [] }

pub data Error : Type 0 where
  invalid_value : (value name : Text) → Error
  needs_argument : (name : Text) → Error
  not_defined : (name : Text) → Error

-- What one turn of the loop does: it ends the loop, or goes on at an index.
pub data Turn : Type 0 where
  stop : Result Error Flags → Turn
  go : (index : ℕ) → Flags → Turn

abbrev pub dash : Text
dash = b'-' ∷ []

abbrev pub two_dashes : Text
two_dashes = b'-' ∷ b'-' ∷ []

unfoldable pub with_positionals : List Text → Flags → Flags
with_positionals rest parsed = record parsed { positionals = parsed.positionals ++ rest }

unfoldable pub with_boolean : Text → Bool → Flags → Flags
with_boolean name value parsed = record parsed { booleans = insert name value parsed.booleans }

unfoldable pub with_value : Text → Text → Flags → Flags
with_value name value parsed = record parsed { values = insert name value parsed.values }

unfoldable pub split_inline : (raw : Text) → Text × Option Text
split_inline raw = elim (split_once b'=' raw) [
  | none ↦ (raw, none)
  | some (name, value) ↦ (name, some value)
]

unfoldable pub take_boolean : Text → Option Text → ℕ → Flags → Turn
take_boolean name none index parsed = go (suc index) (with_boolean name true parsed)
take_boolean name (some value) index parsed =
    if text_beq value (chars "true")
    then go (suc index) (with_boolean name true parsed)
    else if text_beq value (chars "false")
    then go (suc index) (with_boolean name false parsed)
    else stop (err (invalid_value value name))

unfoldable pub take_value : List Text → Text → Option Text → ℕ → Flags → Turn
take_value args name (some value) index parsed = go (suc index) (with_value name value parsed)
take_value args name none index parsed = elim (get_elem? args (suc index)) [
  | none ↦ stop (err (needs_argument name))
  | some value ↦ go (suc (suc index)) (with_value name value parsed)
]

module _ (args value_flags bool_flags : List Text) where
  unfoldable pub take_flag : Text × Option Text → ℕ → Flags → Turn
  take_flag (name, inline) index parsed =
      if contains bool_flags name
      then take_boolean name inline index parsed
      else if contains value_flags name
      then take_value args name inline index parsed
      else stop (err (not_defined name))

  unfoldable pub take_argument : (argument : Text) → ℕ → Flags → Turn
  take_argument argument index parsed =
      if text_beq argument two_dashes
      then stop (ok (with_positionals (drop (suc index) args) parsed))
      else if not (starts_with b'-' argument) || text_beq argument dash
      then stop (ok (with_positionals (drop index args) parsed))
      else take_flag (split_inline (trim_start_matches b'-' argument)) index parsed

  unfoldable pub turn : ℕ → Flags → Turn
  turn index parsed = elim (get_elem? args index) [
    | none ↦ stop (ok parsed)
    | some argument ↦ take_argument argument index parsed
  ]

  unfoldable pub parse_from : (fuel index : ℕ) → Flags → Option (Result Error Flags)
  parse_from zero index parsed = none
  parse_from (suc fuel) index parsed = elim (turn index parsed) [
    | stop answer ↦ some answer
    | go next flags ↦ parse_from fuel next flags
  ]

  unfoldable pub parse_flags : Option (Result Error Flags)
  parse_flags = parse_from (suc (length args)) 0 no_flags
