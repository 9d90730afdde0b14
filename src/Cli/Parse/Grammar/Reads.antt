-- ===== src/Cli/Parse/Grammar/Reads.antt =====
-- What parse_flags accepts is what the grammar says (crates/cli/src/parse.rs).
use bento.Shared.{
  ℕ, zero, suc, ◌≡◌, ◌≢◌, refl, sym, ap, subst, arith, true, false, List, [], ◌∷◌, drop, Option,
  none, some, contains, nat_eq, Bool-cases, Option-cases, inl, inr,
}
use bento.Shared.Result.{ok, err}
use bento.Shared.Parse.{chars}
use bento.Shared.Texts.{Text, text_beq, text_beq_iff, text_eq}
use bento.Cli.Parse.{
  get_elem?, starts_with, trim_start_matches, Flags, Turn, stop, go, dash, two_dashes,
  with_positionals, split_inline, take_boolean, take_value, take_flag, take_argument, turn,
  parse_from,
}
use bento.Cli.Parse.Answers.{Turn-cases}
use bento.Cli.Parse.Grammar.{
  IsSpelled, Reading, nothing, dashes, positional, boolean, joined, spaced,
}
use bento.Cli.Parse.Grammar.Spelling.{IsSpelled-split_inline}

module _ {A : Type 0} where
  pub drop-get_elem? :
      (xs : List A) (index : ℕ) {a : A}
      → get_elem? xs index ≡ some a
      → drop index xs ≡ a ∷ drop (suc index) xs
  unfolding get_elem?
  drop-get_elem? [] index h = cc
  drop-get_elem? (x ∷ xs) zero h = ground arith
  drop-get_elem? (x ∷ xs) (suc index) h = drop-get_elem? xs index h

  drop-past : (xs : List A) (index : ℕ) → get_elem? xs index ≡ none → drop index xs ≡ []
  unfolding get_elem?
  drop-past [] zero h = refl
  drop-past [] (suc index) h = refl
  drop-past (x ∷ xs) zero h = cc
  drop-past (x ∷ xs) (suc index) h = drop-past xs index h

  pub get_elem?-drop :
      (xs : List A) (index : ℕ) {a : A} {rest : List A}
      → drop index xs ≡ a ∷ rest
      → (get_elem? xs index ≡ some a) × (drop (suc index) xs ≡ rest)
  unfolding get_elem?
  get_elem?-drop [] zero h = cc
  get_elem?-drop [] (suc index) h = cc
  get_elem?-drop (x ∷ xs) zero h = ground arith
  get_elem?-drop (x ∷ xs) (suc index) h = get_elem?-drop xs index h

  pub get_elem?-past : (xs : List A) (index : ℕ) → drop index xs ≡ [] → get_elem? xs index ≡ none
  unfolding get_elem?
  get_elem?-past [] index h = refl
  get_elem?-past (x ∷ xs) zero h = cc
  get_elem?-past (x ∷ xs) (suc index) h = get_elem?-past xs index h

module _ (args value_flags bool_flags : List Text) where
  abbrev Reads : List Text → Flags → Flags → Type 0
  Reads = Reading value_flags bool_flags

  -- What a turn leads to is what the grammar says of the arguments left.
  abbrev Leads : List Text → Flags → Turn → Type 0
  Leads rest f (stop (ok g)) = Reads rest f g
  Leads rest f (stop (err e)) = Unit {0}
  Leads rest f (go next h) = (g : Flags) → Reads (drop next args) h g → Reads rest f g

  take_boolean-Leads :
      (a name : Text) (inline : Option Text) (index : ℕ) (f : Flags)
      → IsSpelled a name inline
      → contains bool_flags name ≡ true
      → Leads (a ∷ drop (suc index) args) f (take_boolean name inline index f)
  unfolding take_boolean
  take_boolean-Leads a name none index f spelled known =
      λ g r. boolean name none true spelled known refl r
  take_boolean-Leads a name (some value) index f spelled known =
      elim (Bool-cases (text_beq value (chars "true"))) [
        | inl is_true ↦ rw is_true (λ g r.
            boolean name (some value) true spelled known
              ((text_beq_iff value (chars "true")).0 is_true) r)
        | inr not_true ↦ elim (Bool-cases (text_beq value (chars "false"))) [
          | inl is_false ↦
              rw (not_true, is_false)
                (λ g r.
                  boolean name (some value) false spelled known
                    ((text_beq_iff value (chars "false")).0 is_false) r)
          | inr not_false ↦ rw (not_true, not_false) tt
        ]
      ]

  take_value-Leads :
      (a name : Text) (inline : Option Text) (index : ℕ) (f : Flags)
      → IsSpelled a name inline
      → contains bool_flags name ≡ false
      → contains value_flags name ≡ true
      → Leads (a ∷ drop (suc index) args) f (take_value args name inline index f)
  unfolding take_value
  take_value-Leads a name (some value) index f spelled other known =
      λ g r. joined name value spelled other known r
  take_value-Leads a name none index f spelled other known =
      elim (Option-cases (get_elem? args (suc index))) [
        | inl past ↦ rw (take_value, past) tt
        | inr (value, found) ↦
            rw (take_value, found)
              (λ g r.
                subst (λ rest. Reads (a ∷ rest) f g) (sym (drop-get_elem? args (suc index) found))
                  (spaced name spelled other known r))
      ]

  take_flag-Leads :
      (a name : Text) (inline : Option Text) (index : ℕ) (f : Flags)
      → IsSpelled a name inline
      → Leads
          (a ∷ drop (suc index) args)
          f
          (take_flag args value_flags bool_flags (name, inline) index f)
  unfolding take_flag
  take_flag-Leads a name inline index f spelled = elim (Bool-cases (contains bool_flags name)) [
    | inl known ↦ rw known (take_boolean-Leads a name inline index f spelled known)
    | inr other ↦ elim (Bool-cases (contains value_flags name)) [
      | inl known ↦ rw (other, known) (take_value-Leads a name inline index f spelled other known)
      | inr unknown ↦ rw (other, unknown) tt
    ]
  ]

  take_argument-Leads :
      (a : Text) (index : ℕ) (f : Flags)
      → drop index args ≡ a ∷ drop (suc index) args
      → Leads (a ∷ drop (suc index) args) f (take_argument args value_flags bool_flags a index f)
  unfolding take_argument
  take_argument-Leads a index f here = elim (Bool-cases (text_beq a two_dashes)) [
    | inl two ↦ rw two (dashes ((text_beq_iff a two_dashes).0 two) refl)
    | inr not_two ↦ elim (Bool-cases (starts_with b'-' a)) [
      | inr plain ↦
          rw (not_two, plain) (positional (inr plain) (ap (λ r. with_positionals r f) here))
      | inl starts ↦ elim (Bool-cases (text_beq a dash)) [
        | inl one ↦
            rw (not_two, starts, one)
              (positional (inl ((text_beq_iff a dash).0 one)) (ap (λ r. with_positionals r f) here))
        | inr not_one ↦
            rw (not_two, starts, not_one)
              (take_flag-Leads a (split_inline (trim_start_matches b'-' a)).0
                (split_inline (trim_start_matches b'-' a)).1 index f
                (IsSpelled-split_inline a starts (differs a dash not_one)
                  (differs a two_dashes not_two)))
      ]
    ]
  ]
    where
      differs : (s t : Text) → text_beq s t ≡ false → s ≢ t
      differs s t h = ground (arith, h, text_beq_iff s t)

  turn-Leads :
      (index : ℕ) (f : Flags) → Leads (drop index args) f (turn args value_flags bool_flags index f)
  unfolding turn
  turn-Leads index f = elim (Option-cases (get_elem? args index)) [
    | inl past ↦ rw (turn, past, drop-past args index past) nothing
    | inr (a, found) ↦
        let here = drop-get_elem? args index found in
        rw (turn, found, here) (take_argument-Leads a index f here)
  ]

  pub Reads-parse_from :
      (fuel index : ℕ) (f : Flags) {g : Flags}
      → parse_from args value_flags bool_flags fuel index f ≡ some (ok g)
      → Reads (drop index args) f g
  unfolding parse_from
  Reads-parse_from zero index f h = cc
  Reads-parse_from (suc fuel) index f {g} h =
      let leads = turn-Leads index f in
      elim (Turn-cases (turn args value_flags bool_flags index f)) [
        | inl (ok x, stops) ↦
            let same : x ≡ g = ground (arith, h, stops) in
            subst (λ y. Reads (drop index args) f y) same
              (subst (λ t. Leads (drop index args) f t) stops leads)
        | inl (err e, stops) ↦ absurd (ground (arith, h, stops))
        | inr (i, k, goes) ↦
            subst (λ t. Leads (drop index args) f t) goes leads g
              (Reads-parse_from fuel i k (rw (parse_from, goes) at h))
      ]
