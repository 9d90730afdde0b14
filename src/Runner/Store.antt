-- ===== src/Runner/Store.antt =====
-- crates/runner/src/store.rs: the runner's own tables. Each statement of `SqliteFence` is a function on
-- the tables; that SQLite may fail at any of them is a parameter, which says what statements succeed.
use bento.Shared.{Bool, true, if◌then◌else◌, String, List, [], Option, none, some, string_eq}
use bento.Shared.Rows.{row, put}
use bento.Shared.Int.{ℤ, pos, max_ℤ, ltb_ℤ}

pub record Accepted : Type 0 where
  pub generation : ℤ
  pub digest : String

pub record Tables : Type 0 where
  pub epoch : ℤ  -- fence.accepted_epoch
  pub generations : List (String × Accepted)
  pub outcomes : List (String × String)

-- The schema's first rows.
unfoldable pub fresh : Tables
fresh = record { epoch = pos 0; generations = []; outcomes = [] }

pub data Statement : Type 0 where
  reads_epoch reads_object reads_outcome writes_epoch writes_object writes_outcome : Statement

abbrev pub Sqlite : Type 0
Sqlite = Statement → Bool

-- A call on the store: the tables after it, and its result, `none` for an SQLite error.
abbrev pub Db : Type 0 → Type 0
Db A = Tables → Tables × Option A

abbrev pub pure : {A : Type 0} → A → Db A
pure a t = (t, some a)

infixl 5 ◌>>=◌ ◌>>◌
abbrev pub ◌>>=◌ : {A B : Type 0} → Db A → (A → Db B) → Db B
◌>>=◌ m f t = let (t', r) = m t in elim r [ none ↦ (t', none) | some a ↦ f a t' ]

abbrev pub ◌>>◌ : {B : Type 0} → Db (Unit {0}) → Db B → Db B
◌>>◌ m k = m >>= λ _. k

-- The conflict clause writes only a higher generation.
unfoldable pub newer : Option Accepted → ℤ → Bool
newer none generation = true
newer (some old) generation = ltb_ℤ old.generation generation

module _ (db : Sqlite) where
  unfoldable pub accepted_epoch : Db ℤ
  accepted_epoch t = (t, if db reads_epoch then some t.epoch else none)

  unfoldable pub accept_epoch : ℤ → Db (Unit {0})
  accept_epoch e t =
      if db writes_epoch then (record t { epoch = max_ℤ t.epoch e }, some tt) else (t, none)

  unfoldable pub outcome : String → Db (Option String)
  outcome request_id t = (t, if db reads_outcome then some (row request_id t.outcomes) else none)

  unfoldable pub object_generation : String → Db (Option Accepted)
  object_generation object_id t =
      (t, if db reads_object then some (row object_id t.generations) else none)

  unfoldable pub accept_object : String → ℤ → String → Db (Unit {0})
  unfolding newer
  accept_object object_id generation digest t =
      let kept = record t {
        generations =
            put object_id (record { generation = generation; digest = digest }) t.generations;
      } in
      if db writes_object
      then (if newer (row object_id t.generations) generation
          then (kept, some tt)
          else (t, some tt))
      else (t, none)

  unfoldable pub record_outcome : String → String → Db (Unit {0})
  record_outcome request_id text t =
      if db writes_outcome
      then (record t { outcomes = put request_id text t.outcomes }, some tt)
      else (t, none)
