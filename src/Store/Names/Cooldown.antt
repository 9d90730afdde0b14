-- ===== src/Store/Names/Cooldown.antt =====
-- When a name may be taken (`claim_name_tx` of crates/store/src/names.rs).
use bento.Shared.{
  ℕ, ◌+◌, ◌-◌, ◌/◌, ◌^◌, ◌≤◌, ◌<◌, false, ◌≡◌, ◌⊎◌, ◌↔◌, inl, inr, refl, arith, if◌then◌else◌,
  String, List, [], ◌∷◌, Option, none, some, ◌==◌, string_eq, ==_iff, Option-cases, Bool-cases,
}
use bento.Shared.Int.{ℤ, int_eq}
use bento.Types.{ReleasedName}
use bento.Store.Database.{Database, ok, err, name_cooldown}
use bento.Store.Names.{
  nanos, remaining_cooldown, is_live, released_row, check_release, claim_name_tx, put_release,
}

-- The cooldown counts for the user: somebody else released the name, and its end is still to come.
pub record IsCooling (user_id : ℤ) (cooldown now : ℕ) (release : ReleasedName) : Type 0 where
  pub other : (release.previous_owner_id == user_id) ≡ false
  pub before_end : now < release.released_at + cooldown

pub remaining_cooldown-some :
    (released_at now cooldown : ℕ) {left : ℕ}
    → remaining_cooldown released_at now cooldown ≡ some left
    → (left ≡ cooldown + released_at - now) × (now < cooldown + released_at)
unfolding remaining_cooldown
remaining_cooldown-some released_at now cooldown h = ground arith

pub remaining_cooldown-none :
    (released_at now cooldown : ℕ)
    → (cooldown + released_at - now) / nanos < 2 ^ 64
    → remaining_cooldown released_at now cooldown ≡ none
    → cooldown + released_at ≤ now
unfolding remaining_cooldown
remaining_cooldown-none released_at now cooldown small h = ground arith

pub remaining_cooldown-over :
    (released_at now cooldown : ℕ)
    → cooldown + released_at ≤ now
    → remaining_cooldown released_at now cooldown ≡ none
unfolding remaining_cooldown
remaining_cooldown-over released_at now cooldown over = ground arith

unreleased :
    (name : String) (user_id : ℤ) (cooldown now : ℕ)
    → check_release name user_id cooldown now none ≡ ok tt
unfolding check_release
unreleased name user_id cooldown now = refl

over :
    (name : String) (user_id : ℤ) (cooldown now : ℕ) (r : ReleasedName)
    → cooldown + r.released_at ≤ now
    → check_release name user_id cooldown now (some r) ≡ ok tt
unfolding check_release
over name user_id cooldown now r past =
    ground (arith, remaining_cooldown-over r.released_at now cooldown past)

-- The rest of the cooldown is short enough for a `Duration`.
abbrev pub IsShort : (cooldown now : ℕ) → Option ReleasedName → Type 0
IsShort cooldown now none = Unit
IsShort cooldown now (some release) = (cooldown + release.released_at - now) / nanos < 2 ^ 64

-- The release is the user's own, or its cooldown is over.
abbrev pub IsFree : ℤ → (cooldown now : ℕ) → Option ReleasedName → Type 0
IsFree user_id cooldown now none = Unit
IsFree user_id cooldown now (some release) =
    (release.previous_owner_id ≡ user_id) ⊎ (release.released_at + cooldown ≤ now)

check_release_iff :
    (name : String) (user_id : ℤ) (cooldown now : ℕ) (release : Option ReleasedName)
    → IsShort cooldown now release
    → (check_release name user_id cooldown now release ≡ ok tt)
      ↔ IsFree user_id cooldown now release
unfolding check_release
check_release_iff name user_id cooldown now none short = ground arith
check_release_iff name user_id cooldown now (some r) short =
    elim (Option-cases (remaining_cooldown r.released_at now cooldown)) [
      | inl over ↦ ground (
        arith,
        over,
        ==_iff r.previous_owner_id user_id,
        remaining_cooldown-none r.released_at now cooldown short over,
      )
      | inr (left, rest) ↦ ground (
        arith,
        rest,
        ==_iff r.previous_owner_id user_id,
        remaining_cooldown-some r.released_at now cooldown rest,
      )
    ]

-- A name may be claimed exactly if no instance has it and its release, if there is one, is the user's own or
-- its cooldown is over; the rest of the cooldown is to be below 2 ^ 64 seconds.
pub claim_name_tx_iff :
    (name : String) (user_id : ℤ) (cooldown now : ℕ) (db : Database)
    → IsShort cooldown now (released_row name db.released_names)
    → (claim_name_tx name user_id cooldown now db ≡ ok tt) ↔ (
        (is_live name db.instances ≡ false)
        × IsFree user_id cooldown now (released_row name db.released_names))
unfolding claim_name_tx
claim_name_tx_iff name user_id cooldown now db short =
    let rule =
      check_release_iff name user_id cooldown now (released_row name db.released_names) short in
    elim (Bool-cases (is_live name db.instances)) [
      | inl live ↦ ground (arith, live)
      | inr free ↦ ground (arith, free, rule)
    ]

check_release-cooldown :
    (name : String) (user_id : ℤ) (cooldown now : ℕ) (r : ReleasedName) {said : String}
    {remaining : ℕ}
    → check_release name user_id cooldown now (some r) ≡ err (name_cooldown said remaining)
    → ((r.previous_owner_id == user_id) ≡ false)
      × (remaining_cooldown r.released_at now cooldown ≡ some remaining)
unfolding check_release
check_release-cooldown name user_id cooldown now r h = ground arith

-- A refusal for the cooldown says exactly how long the claim has to wait: the same claim that much later, on
-- the same tables, succeeds.
pub claim_name_tx-cooldown :
    (name : String) (user_id : ℤ) (cooldown now : ℕ) (db : Database) {said : String} {remaining : ℕ}
    → claim_name_tx name user_id cooldown now db ≡ err (name_cooldown said remaining)
    → (release : ReleasedName) × (released_row name db.released_names ≡ some release)
      × IsCooling user_id cooldown now release
      × (now + remaining ≡ release.released_at + cooldown)
      × (claim_name_tx name user_id cooldown (now + remaining) db ≡ ok tt)
unfolding claim_name_tx
claim_name_tx-cooldown name user_id cooldown now db {said} {remaining} h =
    elim (Bool-cases (is_live name db.instances)) [
      | inl live ↦ absurd (ground (arith, live))
      | inr free ↦ elim (Option-cases (released_row name db.released_names)) [
        | inl unknown ↦ absurd (ground (arith, free, unknown, unreleased name user_id cooldown now))
        | inr (release, found) ↦
            let (other, rest) =
              check_release-cooldown name user_id cooldown now release {said = said}
                {remaining = remaining} (ground (arith, free, found)) in
            let (left, before) = remaining_cooldown-some release.released_at now cooldown rest in
            let later : claim_name_tx name user_id cooldown (now + remaining) db ≡ ok tt = ground (
              arith,
              free,
              found,
              over name user_id cooldown (now + remaining) release (omega arith),
            ) in
            (release, found, record { other = other; before_end = omega arith }, omega arith, later)
      ]
    ]

pub released_row-put :
    (name : String) (release : ReleasedName) (rows : List ReleasedName)
    → released_row name (put_release release rows)
      ≡ (if release.name == name then some release else released_row name rows)
unfolding released_row put_release
released_row-put name release [] = refl
released_row-put name release (r ∷ rows) = ground (
  arith,
  ==_iff release.name name,
  ==_iff r.name name,
  ==_iff r.name release.name,
  released_row-put name release rows,
)
