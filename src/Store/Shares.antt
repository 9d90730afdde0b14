-- ===== src/Store/Shares.antt =====
-- crates/store/src/shares.rs: who may use an instance.
pub mod Access
use bento.Shared.{
  ℕ, Bool, true, false, ◌&&◌, ◌||◌, not, if◌then◌else◌, String, List, [], ◌∷◌, ◌==◌, string_eq,
  select,
}
use bento.Shared.Int.{ℤ, int_eq}
use bento.Types.{Instance}
use bento.Store.Database.{Database, Backend, Share, Result, ok, err, not_found, sqlite}

unfoldable pub has_share : String → ℤ → List Share → Bool
has_share uuid user_id [] = false
has_share uuid user_id (s ∷ rows) =
    ((s.instance_uuid == uuid) && (s.user_id == user_id)) || has_share uuid user_id rows

unfoldable pub has_row : String → List Instance → Bool
has_row uuid [] = false
has_row uuid (i ∷ rows) = (i.uuid == uuid) || has_row uuid rows

unfoldable pub owns : String → ℤ → List Instance → Bool
owns uuid user_id [] = false
owns uuid user_id (i ∷ rows) =
    ((i.uuid == uuid) && (i.owner_id == user_id)) || owns uuid user_id rows

-- `INSERT … ON CONFLICT DO NOTHING`; the instance and the user are references.
unfoldable pub add_share :
    Backend → String → ℤ → (now : ℕ) → Database → Database × Result (Unit {0})
add_share backend uuid user_id now db =
    let share : Share = record { instance_uuid = uuid; user_id = user_id; created_at = now } in
    if not (backend.formats now)
    then (db, err sqlite)
    else if has_share uuid user_id db.shares
    then (db, ok tt)
    else if has_row uuid db.instances && backend.user_exists user_id
    then (record db { shares = share ∷ db.shares }, ok tt)
    else (db, err sqlite)

unfoldable pub remove_share : String → ℤ → Database → Database × Result (Unit {0})
remove_share uuid user_id db =
    if has_share uuid user_id db.shares
    then (
      record db {
        shares = select (λ s. not ((s.instance_uuid == uuid) && (s.user_id == user_id))) db.shares;
      },
      ok tt,
    )
    else (db, err not_found)

unfoldable pub shares_for : String → Database → List Share
shares_for uuid db = select (λ s. s.instance_uuid == uuid) db.shares

-- The union of the two selections has a row.
unfoldable pub has_access : String → ℤ → Database → Bool
has_access uuid user_id db = owns uuid user_id db.instances || has_share uuid user_id db.shares
