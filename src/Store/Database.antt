-- ===== src/Store/Database.antt =====
-- crates/store/src/lib.rs and schema.sql: the tables that names, instances and shares use, the error
-- type, and `with_tx`. A transaction that fails at any statement is rolled back when it is dropped, so
-- its body gives tables only with a result. What SQLite and the clock library do is a parameter: whether
-- the commit succeeds, whether a time can be written, and whether the rows that a new instance or share
-- names in other tables exist. A statement that SQLite itself fails ends like a failed commit.
use bento.Shared.{◌⊎◌, inl, inr, ◌≡◌, refl, arith, ℕ, String, List, Bool, true, false}
use bento.Shared.Int.{ℤ}
use bento.Types.{Instance, ReleasedName}
use bento.Store.Observation.{HostHealth}

pub data Resource : Type 0 where
  memory disk : Resource

-- Why a host cannot take an instance.
pub data Rejection : Type 0 where
  never_answered no_active_slot no_memory : Rejection
  last_seen : HostHealth → Rejection
  other_arch : (host_arch want_arch : String) → Rejection
  memory_short : (left memory_limit wants : ℕ) → Rejection
  disk_short : (available wants : ℕ) → Rejection

pub data Error : Type 0 where
  not_found name_taken lease_lost sqlite : Error
  capacity : Resource → (used requested limit : ℕ) → Error
  name_cooldown : String → (remaining : ℕ) → Error
  lease_held : (holder : String) → (expires_at : ℕ) → Error
  runner_prefix_outside : (prefix : ℕ) → Error
  runner_prefix_strands_slot runner_prefix_splits_owners : (prefix slot : ℕ) → Error
  no_such_slot : (slot count : ℕ) → Error
  slot_in_use : (slot occupied : ℕ) → Error
  no_placement : (reasons : List (String × Rejection)) → Error

pub data Result (A : Type 0) : Type 0 where
  ok : A → Result A
  err : Error → Result A

-- A row of `shares`.
pub record Share : Type 0 where
  pub instance_uuid : String
  pub user_id : ℤ
  pub created_at : ℕ

pub record Database : Type 0 where
  pub instances : List Instance
  pub released_names : List ReleasedName
  pub shares : List Share

pub record Backend : Type 0 where
  pub commits : Bool
  pub formats : ℕ → Bool
  pub unix_epoch : ℕ
  pub instance_references : Instance → Bool
  pub user_exists : ℤ → Bool

abbrev pub Tx : Type 0 → Type 0
Tx A = Database → Result (Database × A)

infixl 5 ◌>>=◌
abbrev pub ◌>>=◌ : {X Y : Type 0} → Result X → (X → Result Y) → Result Y
err error >>= next = err error
ok x >>= next = next x

-- The end of a transaction whose body gave the result, on the tables or on one row of them.
unfoldable pub settle : {R A : Type 0} → Bool → R → Result (R × A) → R × Result A
settle commits db (err e) = (db, err e)
settle true db (ok (db', a)) = (db', ok a)
settle false db (ok (db', a)) = (db, err sqlite)

unfoldable pub with_tx : {A : Type 0} → Bool → Tx A → Database → Database × Result A
with_tx commits f db = settle commits db (f db)

pub Result-cases :
    {A : Type 0} (r : Result A) → ((e : Error) × (r ≡ err e)) ⊎ ((a : A) × (r ≡ ok a))
Result-cases (err e) = inl (e, refl)
Result-cases (ok a) = inr (a, refl)

pub >>=-eq-ok :
    {X Y : Type 0} (first : Result X) (next : X → Result Y) {y : Y}
    → (first >>= next) ≡ ok y
    → (x : X) × (first ≡ ok x) × (next x ≡ ok y)
>>=-eq-ok (err error) next e = cc
>>=-eq-ok (ok x) next e = (x, refl, e)

pub settle_keeps {κ} :
    {R A : Type 0} (P : R → Type κ) (commits : Bool) (db : R) (body : Result (R × A))
    → P db
    → ((db' : R) (a : A) → body ≡ ok (db', a) → P db')
    → P (settle commits db body).0
unfolding settle
settle_keeps P commits db (err e) before after = before
settle_keeps P true db (ok (db', a)) before after = after db' a refl
settle_keeps P false db (ok (db', a)) before after = before

pub settle-ok :
    {R A : Type 0} (commits : Bool) (db : R) (body : Result (R × A)) {a : A}
    → (settle commits db body).1 ≡ ok a
    → (commits ≡ true) × (body ≡ ok ((settle commits db body).0, a))
unfolding settle
settle-ok commits db (err e) h = cc
settle-ok true db (ok (db', a)) h = (refl, ground (arith, h))
settle-ok false db (ok (db', a)) h = cc

-- What holds of the tables before, and of the tables that a successful body gives, holds after.
pub with_tx_keeps {κ} :
    {A : Type 0} (P : Database → Type κ) (commits : Bool) (f : Tx A) (db : Database)
    → P db
    → ((db' : Database) (a : A) → f db ≡ ok (db', a) → P db')
    → P (with_tx commits f db).0
unfolding with_tx
with_tx_keeps P commits f db before after = settle_keeps P commits db (f db) before after

-- A successful transaction is its body, committed.
pub with_tx-ok :
    {A : Type 0} (commits : Bool) (f : Tx A) (db : Database) {a : A}
    → (with_tx commits f db).1 ≡ ok a
    → f db ≡ ok ((with_tx commits f db).0, a)
unfolding with_tx
with_tx-ok commits f db h = (settle-ok commits db (f db) h).1
