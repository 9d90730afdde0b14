-- ===== src/Store/Shares/Access.antt =====
-- Access to an instance by ownership and by shares (crates/store/src/shares.rs).
use bento.Shared.{
  ℕ, ◌≡◌, ◌⊎◌, ◌↔◌, refl, subst, arith, inl, inr, true, false, ◌&&◌, ◌||◌, not, String, List, [],
  ◌∷◌, ◌==◌, ==_iff, string_eq, select, Bool-cases,
}
use bento.Shared.Int.{ℤ, int_eq}
use bento.Types.{Instance}
use bento.Store.Database.{Database, Backend, Share, ok, with_tx-ok}
use bento.Store.Instances.{delete_row, delete_tx, delete_instance}
use bento.Store.Instances.Success.{delete_tx-ok, release_name_tx-ok}
use bento.Store.Shares.{has_share, owns, add_share, remove_share, has_access}

-- The table of shares without a user's share of an instance.
has_share-removed :
    (uuid : String) (user_id : ℤ) (uuid' : String) (user' : ℤ) (rows : List Share)
    → has_share uuid' user'
        (select (λ s. not ((s.instance_uuid == uuid) && (s.user_id == user_id))) rows)
      ≡ (has_share uuid' user' rows && not ((uuid == uuid') && (user_id == user')))
unfolding has_share
has_share-removed uuid user_id uuid' user' [] = refl
has_share-removed uuid user_id uuid' user' (s ∷ rows) = ground (
  arith,
  has_share-removed uuid user_id uuid' user' rows,
  ==_iff s.instance_uuid uuid,
  ==_iff s.instance_uuid uuid',
  ==_iff uuid uuid',
  ==_iff s.user_id user_id,
  ==_iff s.user_id user',
  ==_iff user_id user',
)

-- A share that was added gives its user access, and nobody else any.
pub add_share-has_access :
    (b : Backend) (uuid : String) (user_id : ℤ) (now : ℕ) (db : Database) (uuid' : String)
    (user' : ℤ)
    → (add_share b uuid user_id now db).1 ≡ ok tt
    → (has_access uuid' user' (add_share b uuid user_id now db).0 ≡ true)
      ↔ ((has_access uuid' user' db ≡ true) ⊎ ((uuid ≡ uuid') × (user_id ≡ user')))
unfolding add_share has_access has_share
add_share-has_access b uuid user_id now db uuid' user' h =
    elim (Bool-cases (has_share uuid user_id db.shares)) [
      | inl known ↦ ground (arith, known, there known)
      | inr new ↦ ground (arith, new, ==_iff uuid uuid', ==_iff user_id user')
    ]
  where
    there :
        has_share uuid user_id db.shares ≡ true
        → (uuid ≡ uuid') × (user_id ≡ user')
        → has_share uuid' user' db.shares ≡ true
    there known (same_uuid, same_user) =
        subst (λ k. has_share k user' db.shares ≡ true) same_uuid
          (subst (λ k. has_share uuid k db.shares ≡ true) same_user known)

-- A share that was removed gives access no more: its user has access only as the owner, and everybody else
-- has what they had.
pub remove_share-has_access :
    (uuid : String) (user_id : ℤ) (db : Database) (uuid' : String) (user' : ℤ)
    → (remove_share uuid user_id db).1 ≡ ok tt
    → has_access uuid' user' (remove_share uuid user_id db).0 ≡ (
        owns uuid' user' db.instances
        || (has_share uuid' user' db.shares && not ((uuid == uuid') && (user_id == user'))))
unfolding remove_share has_access
remove_share-has_access uuid user_id db uuid' user' h =
    ground (arith, has_share-removed uuid user_id uuid' user' db.shares)

has_share-deleted :
    (uuid : String) (user_id : ℤ) (rows : List Share)
    → has_share uuid user_id (select (λ s. not (s.instance_uuid == uuid)) rows) ≡ false
unfolding has_share
has_share-deleted uuid user_id [] = refl
has_share-deleted uuid user_id (s ∷ rows) = ground (arith, has_share-deleted uuid user_id rows)

owns-deleted :
    (uuid : String) (user_id : ℤ) (rows : List Instance)
    → owns uuid user_id (select (λ i. not (i.uuid == uuid)) rows) ≡ false
unfolding owns
owns-deleted uuid user_id [] = refl
owns-deleted uuid user_id (i ∷ rows) = ground (arith, owns-deleted uuid user_id rows)

-- When an instance has been deleted, nobody has access to its UUID, neither as its owner nor by a share.
pub delete_instance-has_access :
    (b : Backend) (uuid : String) (now : ℕ) (db : Database) {i : Instance} (user_id : ℤ)
    → (delete_instance b uuid now db).1 ≡ ok i
    → has_access uuid user_id (delete_instance b uuid now db).0 ≡ false
unfolding delete_instance has_access delete_row
delete_instance-has_access b uuid now db {i} user_id h =
    let done = with_tx-ok b.commits (delete_tx b uuid now) db h in
    let (_, released) = delete_tx-ok b uuid now db _ done in
    let (rows, shares, _) = release_name_tx-ok b i.name i.owner_id now _ _ released in
    ground (
      arith,
      rows,
      shares,
      owns-deleted uuid user_id db.instances,
      has_share-deleted uuid user_id db.shares,
    )
