-- ===== src/Cli/Parse/Grammar/Spelling.antt =====
-- How parse_flags takes an argument apart (crates/cli/src/parse.rs).
use bento.Shared.{
  append-nil, ℕ, zero, suc, ◌≡◌, ◌≢◌, refl, sym, ap, ◌∙◌, arith, true, false, nat_beq, [], ◌∷◌,
  ◌++◌, replicate, Option, none, some, contains, nat_eq, Bool-cases, Option-cases, inl, inr,
}
use bento.Shared.Texts.{Text}
use bento.Cli.Parse.{starts_with, trim_start_matches, split_once, split_inline, dash, two_dashes}
use bento.Cli.Parse.Grammar.{written, IsSpelled}

module _ (c : ℕ) where
  trim_start_matches-front :
      (t : Text)
      → ((n : ℕ) × (t ≡ replicate n c ++ trim_start_matches c t))
        × (starts_with c (trim_start_matches c t) ≡ false)
  unfolding trim_start_matches starts_with
  trim_start_matches-front [] = ((0, refl), refl)
  trim_start_matches-front (d ∷ ds) = elim (Bool-cases (nat_beq d c)) [
    | inl same ↦
        let ((n, e), clear) = trim_start_matches-front ds in
        rw same ((suc n, ground (arith, e, same)), clear)
    | inr other ↦ rw other ((0, refl), other)
  ]

  trim_start_matches-undo :
      (n : ℕ) (t : Text) → starts_with c t ≡ false → trim_start_matches c (replicate n c ++ t) ≡ t
  unfolding trim_start_matches starts_with
  trim_start_matches-undo zero [] clear = refl
  trim_start_matches-undo zero (d ∷ ds) clear = rw clear refl
  trim_start_matches-undo (suc n) t clear = ground (arith, trim_start_matches-undo n t clear)

  split_once-some :
      (t : Text) {front back : Text}
      → split_once c t ≡ some (front, back)
      → (t ≡ front ++ (c ∷ back)) × (contains front c ≡ false)
  unfolding split_once
  split_once-some [] h = cc
  split_once-some (d ∷ ds) {front} {back} h = elim (Bool-cases (nat_beq d c)) [
    | inl same ↦ ground (arith, h, same)
    | inr other ↦ elim (Option-cases (split_once c ds)) [
      | inl lacks ↦ ground (arith, h, other, lacks)
      | inr ((f, b), found) ↦
          let halves = split_once-some ds found in
          ground (arith, h, other, found, halves.0, halves.1)
    ]
  ]

  split_once-none : (t : Text) → split_once c t ≡ none → contains t c ≡ false
  unfolding split_once
  split_once-none [] h = refl
  split_once-none (d ∷ ds) h = ground (arith, h, split_once-none ds)

  split_once-undo :
      (front back : Text)
      → contains front c ≡ false
      → split_once c (front ++ (c ∷ back)) ≡ some (front, back)
  unfolding split_once
  split_once-undo [] back clear = ground arith
  split_once-undo (d ∷ ds) back clear = ground (arith, clear, split_once-undo ds back)

  split_once-lacks : (t : Text) → contains t c ≡ false → split_once c t ≡ none
  unfolding split_once
  split_once-lacks [] clear = refl
  split_once-lacks (d ∷ ds) clear = ground (arith, clear, split_once-lacks ds)

split_inline-written :
    (raw : Text)
    → (raw ≡ (split_inline raw).0 ++ written (split_inline raw).1)
      × (contains (split_inline raw).0 b'=' ≡ false)
unfolding split_inline
split_inline-written raw = elim (Option-cases (split_once b'=' raw)) [
  | inl lacks ↦ rw (split_inline, lacks) (sym (append-nil raw), split_once-none b'=' raw lacks)
  | inr ((front, back), found) ↦ rw (split_inline, found) (split_once-some b'=' raw found)
]

split_inline-undo :
    (name : Text) (inline : Option Text)
    → contains name b'=' ≡ false
    → split_inline (name ++ written inline) ≡ (name, inline)
unfolding split_inline
split_inline-undo name none clear =
    ap split_inline (append-nil name) ∙ rw (split_inline, split_once-lacks b'=' name clear) refl
split_inline-undo name (some value) clear =
    rw (split_inline, split_once-undo b'=' name value clear) refl

starts_with-written :
    (name : Text) (inline : Option Text)
    → starts_with b'-' name ≡ false
    → starts_with b'-' (name ++ written inline) ≡ false
unfolding starts_with
starts_with-written [] none clear = refl
starts_with-written [] (some value) clear = refl
starts_with-written (c ∷ cs) inline clear = clear

-- A flag is taken apart into the name and the value that it spells.
pub split_inline-IsSpelled :
    (argument name : Text) (inline : Option Text)
    → IsSpelled argument name inline
    → split_inline (trim_start_matches b'-' argument) ≡ (name, inline)
split_inline-IsSpelled argument name inline ((n, e), clear, plain, not_one, not_two) =
    ap (λ a. split_inline (trim_start_matches b'-' a)) e
    ∙ ap split_inline (
        trim_start_matches-undo b'-' (suc n) (name ++ written inline)
          (starts_with-written name inline clear))
    ∙ split_inline-undo name inline plain

starts_with-name :
    (name : Text) (inline : Option Text)
    → starts_with b'-' (name ++ written inline) ≡ false
    → starts_with b'-' name ≡ false
unfolding starts_with
starts_with-name [] inline clear = refl
starts_with-name (c ∷ cs) inline clear = clear

-- An argument that starts with a dash and is neither one dash nor two spells what it is taken apart into.
pub IsSpelled-split_inline :
    (argument : Text)
    → starts_with b'-' argument ≡ true
    → argument ≢ dash
    → argument ≢ two_dashes
    → IsSpelled argument
        (split_inline (trim_start_matches b'-' argument)).0
        (split_inline (trim_start_matches b'-' argument)).1
unfolding starts_with
IsSpelled-split_inline argument starts one two =
    let raw = trim_start_matches b'-' argument in
    let front = trim_start_matches-front b'-' argument in
    let halves = split_inline-written raw in
    (
      dashed front.0.0 front.0.1,
      starts_with-name (split_inline raw).0 (split_inline raw).1
          (ap (starts_with b'-') (sym halves.0) ∙ front.1),
      halves.1,
      one,
      two,
    )
  where
    true-ne-false : true ≡ false → ⊥
    true-ne-false e = cc

    dashed :
        (n : ℕ)
        → argument ≡ replicate n b'-' ++ trim_start_matches b'-' argument
        → (n : ℕ) × (argument
            ≡ replicate (suc n) b'-'
              ++ ((split_inline (trim_start_matches b'-' argument)).0
                  ++ written (split_inline (trim_start_matches b'-' argument)).1))
    dashed zero e = absurd (
        true-ne-false
          (sym starts ∙ ap (starts_with b'-') e ∙ (trim_start_matches-front b'-' argument).1))
    dashed (suc n) e = (
      n,
      e
          ∙ ap (λ t. replicate (suc n) b'-' ++ t)
              (split_inline-written (trim_start_matches b'-' argument)).0,
    )
