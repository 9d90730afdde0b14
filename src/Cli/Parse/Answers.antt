-- ===== src/Cli/Parse/Answers.antt =====
-- The loop of parse_flags always ends (crates/cli/src/parse.rs).
use bento.Shared.{
  ℕ, zero, suc, ◌+◌, ◌≡◌, refl, arith, ◌≤◌, ◌<◌, ◌⊎◌, inl, inr, List, [], ◌∷◌, length, Option, none,
  some, Option-cases,
}
use bento.Shared.Result.{Result}
use bento.Shared.Texts.{Text, text_eq}
use bento.Cli.Parse.{
  get_elem?, trim_start_matches, Flags, no_flags, Error, Turn, stop, go, split_inline, take_boolean,
  take_value, take_flag, take_argument, turn, parse_from,
}

get_elem?-bound :
    {A : Type 0} (xs : List A) (index : ℕ) {a : A} → get_elem? xs index ≡ some a → index < length xs
unfolding get_elem?
get_elem?-bound [] index h = cc
get_elem?-bound (x ∷ xs) zero h = omega arith
get_elem?-bound (x ∷ xs) (suc index) h = omega (arith, get_elem?-bound xs index h)

pub Turn-cases :
    (t : Turn) → ((r : Result Error Flags) × (t ≡ stop r)) ⊎ ((i : ℕ) × (f : Flags) × (t ≡ go i f))
Turn-cases (stop r) = inl (r, refl)
Turn-cases (go i f) = inr (i, f, refl)

module _ (args value_flags bool_flags : List Text) where
  take_boolean-on :
      (name : Text) (inline : Option Text) (index : ℕ) (f : Flags) {i : ℕ} {g : Flags}
      → take_boolean name inline index f ≡ go i g
      → index < i
  unfolding take_boolean
  take_boolean-on name none index f h = ground (arith, h)
  take_boolean-on name (some value) index f h = ground (arith, h)

  take_value-on :
      (name : Text) (inline : Option Text) (index : ℕ) (f : Flags) {i : ℕ} {g : Flags}
      → take_value args name inline index f ≡ go i g
      → index < i
  unfolding take_value
  take_value-on name (some value) index f h = ground (arith, h)
  take_value-on name none index f h = ground (arith, h)

  -- A turn that goes on has read an argument.
  turn-on :
      (index : ℕ) (f : Flags) {i : ℕ} {g : Flags}
      → turn args value_flags bool_flags index f ≡ go i g
      → (index < i) × (index < length args)
  unfolding turn take_argument take_flag
  turn-on index f {i} {g} h = elim (Option-cases (get_elem? args index)) [
    | inl none_left ↦ cc
    | inr (a, found) ↦
        let p = split_inline (trim_start_matches b'-' a) in
        (
          ground (
            arith,
            h,
            found,
            take_boolean-on p.0 p.1 index f {i = i} {g = g},
            take_value-on p.0 p.1 index f {i = i} {g = g},
          ),
          get_elem?-bound args index found,
        )
  ]

  module _ (index : ℕ) (f : Flags) where
    stopped :
        {r : Result Error Flags}
        → turn args value_flags bool_flags index f ≡ stop r
        → (fuel : ℕ) → 0 < fuel
        → parse_from args value_flags bool_flags fuel index f ≡ some r
    unfolding parse_from
    stopped stops zero more = absurd (omega (arith, more))
    stopped stops (suc fuel) more = rw (parse_from, stops) refl

    gone_on :
        {k i : ℕ} {g : Flags} {r : Result Error Flags}
        → turn args value_flags bool_flags index f ≡ go i g
        → ((fuel : ℕ) → k < fuel → parse_from args value_flags bool_flags fuel i g ≡ some r)
        → (fuel : ℕ) → suc k < fuel
        → parse_from args value_flags bool_flags fuel index f ≡ some r
    unfolding parse_from
    gone_on goes same zero more = absurd (omega (arith, more))
    gone_on goes same (suc fuel) more = rw (parse_from, goes) (same fuel (omega (arith, more)))

  answers_from :
      (k index : ℕ) (f : Flags)
      → length args ≤ index + k
      → (r : Result Error Flags) × ((fuel : ℕ)
          → k < fuel
          → parse_from args value_flags bool_flags fuel index f ≡ some r)
  answers_from zero index f enough = elim (Turn-cases (turn args value_flags bool_flags index f)) [
    | inl (r, stops) ↦ (r, stopped index f {r = r} stops)
    | inr (i, g, goes) ↦ absurd (omega (arith, enough, turn-on index f goes))
  ]
  answers_from (suc k) index f enough =
      elim (Turn-cases (turn args value_flags bool_flags index f)) [
        | inl (r, stops) ↦
            (r, λ fuel more. stopped index f {r = r} stops fuel (omega (arith, more)))
        | inr (i, g, goes) ↦
            let rest = answers_from k i g (omega (arith, enough, turn-on index f goes)) in
            (rest.0, gone_on index f goes rest.1)
      ]

-- The loop ends: from the first argument on there is one answer, and every fuel above the number of arguments
-- gives it.
pub parse_from-total :
    (args value_flags bool_flags : List Text)
    → (r : Result Error Flags) × ((fuel : ℕ)
        → length args < fuel
        → parse_from args value_flags bool_flags fuel 0 no_flags ≡ some r)
parse_from-total args value_flags bool_flags =
    answers_from args value_flags bool_flags (length args) 0 no_flags (omega arith)
