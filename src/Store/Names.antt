-- ===== src/Store/Names.antt =====
-- crates/store/src/names.rs: who may take a name. A `Duration` is a number of nanoseconds.
pub mod Cooldown
use bento.Shared.{
  ℕ, zero, suc, ◌+◌, ◌-◌, ◌/◌, ◌^◌, Bool, true, false, if◌then◌else◌, ltb, nat_beq, String, List,
  [], ◌∷◌, Option, none, some, ◌==◌, string_eq, find,
}
use bento.Shared.Int.{ℤ, int_eq}
use bento.Types.{Instance, ReleasedName}
use bento.Store.Database.{
  Database, Backend, Tx, Result, ok, err, ◌>>=◌, Error, name_taken, name_cooldown, sqlite, with_tx,
}

abbrev pub nanos : ℕ
nanos = 1_000_000_000

-- What is left of the cooldown. A rest of 2 ^ 64 seconds or more has no `Duration`, and is none.
unfoldable pub remaining_cooldown : (released_at now cooldown : ℕ) → Option ℕ
remaining_cooldown released_at now cooldown =
    let left = (cooldown + released_at) - now in
    if nat_beq left 0 then none else if ltb (left / nanos) (2 ^ 64) then some left else none

unfoldable pub is_live : String → List Instance → Bool
is_live name [] = false
is_live name (i ∷ rows) = if i.name == name then true else is_live name rows

unfoldable pub released_row : String → List ReleasedName → Option ReleasedName
released_row name rows = find (λ r. r.name == name) rows

unfoldable pub check_release :
    String → ℤ → (cooldown now : ℕ) → Option ReleasedName → Result (Unit {0})
check_release name user_id cooldown now none = ok tt
check_release name user_id cooldown now (some release) =
    if release.previous_owner_id == user_id
    then ok tt
    else elim (remaining_cooldown release.released_at now cooldown) [
      | none ↦ ok tt
      | some remaining ↦ err (name_cooldown name remaining)
    ]

unfoldable pub claim_name_tx : String → ℤ → (cooldown now : ℕ) → Database → Result (Unit {0})
claim_name_tx name user_id cooldown now db =
    if is_live name db.instances
    then err name_taken
    else check_release name user_id cooldown now (released_row name db.released_names)

-- `INSERT … ON CONFLICT(name) DO UPDATE`
unfoldable pub put_release : ReleasedName → List ReleasedName → List ReleasedName
put_release release [] = release ∷ []
put_release release (r ∷ rows) =
    if r.name == release.name then release ∷ rows else r ∷ put_release release rows

module _ (backend : Backend) where
  unfoldable pub release_name_tx : String → ℤ → (now : ℕ) → Tx (Unit {0})
  release_name_tx name previous_owner_id now db =
      let release : ReleasedName = record {
        name = name;
        previous_owner_id = previous_owner_id;
        released_at = now;
      } in
      if backend.formats now
      then ok (record db { released_names = put_release release db.released_names }, tt)
      else err sqlite

  unfoldable pub claim_name :
      String → ℤ → (cooldown now : ℕ) → Database → Database × Result (Unit {0})
  claim_name name user_id cooldown now =
      with_tx backend.commits
        (λ db. claim_name_tx name user_id cooldown now db >>= λ _. ok (db, tt))

-- The release record of a name, which stays when the cooldown is over.
unfoldable pub released_name : String → Database → Result ReleasedName
released_name name db = elim (released_row name db.released_names) [
  | none ↦ err Error.not_found
  | some release ↦ ok release
]
