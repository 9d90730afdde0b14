-- ===== src/Store/Lease.antt =====
-- crates/store/src/runners.rs: the controller lease. The row of
-- `controller_lease` is always there. Its times are compared as texts by one statement, so they are texts:
-- the text of a time is made and read by a library, a parameter.
pub mod Epochs
pub mod History
use bento.Shared.{
  ℕ, zero, suc, ◌+◌, ◌*◌, ◌-◌, ◌^◌, Bool, true, false, ◌&&◌, not, if◌then◌else◌, ltb, String, List,
  [], ◌∷◌, Option, none, some, ◌==◌, string_eq,
}
use bento.Shared.Int.{ℤ, pos, negsuc, ltb_ℤ, max_ℤ}
use bento.Types.{Lease}
use bento.Store.Database.{Error, Result, ok, err, ◌>>=◌, settle, lease_lost, lease_held, sqlite}

pub record LeaseRow : Type 0 where
  pub holder_id : Option String
  pub epoch : ℤ
  pub expires_at : Option String

-- The library for times: its text of a time, how it reads a text, and SQLite's order of texts.
pub record Clock : Type 0 where
  pub format_time : ℕ → Option String
  pub parse_time : String → Option ℕ
  pub text_after : String → String → Bool

-- `epoch + 1` of an SQLite integer.
abbrev pub succ_ℤ : ℤ → ℤ
succ_ℤ (pos n) = pos (n + 1)
succ_ℤ (negsuc zero) = pos 0
succ_ℤ (negsuc (suc n)) = negsuc n

module _ (clock : Clock) where
  -- Who keeps the holder out: somebody else, whose lease has not run out.
  unfoldable pub held_by_other : String → (now : ℕ) → LeaseRow → Result (Unit {0})
  held_by_other holder_id now row = elim row.holder_id [
    | none ↦ ok tt
    | some holder ↦ elim row.expires_at [
      | none ↦ ok tt
      | some text ↦ elim (clock.parse_time text) [
        | none ↦ err sqlite
        | some expires_at ↦
            if not (holder == holder_id) && ltb now expires_at
            then err (lease_held holder expires_at)
            else ok tt
      ]
    ]
  ]

  unfoldable pub take_lease : String → (expires_at : ℕ) → LeaseRow → Result (LeaseRow × Lease)
  take_lease holder_id expires_at row = elim (clock.format_time expires_at) [
    | none ↦ err sqlite
    | some text ↦ ok (
      record { holder_id = some holder_id; epoch = succ_ℤ row.epoch; expires_at = some text },
      record { holder_id = holder_id; epoch = succ_ℤ row.epoch; expires_at = expires_at },
    )
  ]

  unfoldable pub acquire_lease : Bool → String → (ttl now : ℕ) → LeaseRow → LeaseRow × Result Lease
  acquire_lease commits holder_id ttl now row =
      settle commits row
        (held_by_other holder_id now row >>= λ _. take_lease holder_id (now + ttl) row)

  -- The text of a time, where it has one.
  unfoldable pub written : ℕ → Result String
  written t = elim (clock.format_time t) [ none ↦ err sqlite | some text ↦ ok text ]

  -- The condition of the renewing statement.
  unfoldable pub still_holds : String → (now_text : String) → LeaseRow → Bool
  still_holds holder_id now_text row = elim row.holder_id [
    | none ↦ false
    | some holder ↦ elim row.expires_at [
      | none ↦ false
      | some text ↦ (holder == holder_id) && clock.text_after text now_text
    ]
  ]

  unfoldable pub renew :
      String → (expires_at : ℕ) → (text now_text : String) → LeaseRow → Result (LeaseRow × Lease)
  renew holder_id expires_at text now_text row =
      if still_holds holder_id now_text row
      then ok (
        record row { expires_at = some text },
        record { holder_id = holder_id; epoch = row.epoch; expires_at = expires_at },
      )
      else err lease_lost

  unfoldable pub renew_lease : Bool → String → (ttl now : ℕ) → LeaseRow → LeaseRow × Result Lease
  renew_lease commits holder_id ttl now row = settle commits row (
      written (now + ttl) >>= λ text.
      written now >>= λ now_text. renew holder_id (now + ttl) text now_text row)

  -- Reading the lease without taking it.
  unfoldable pub lease : LeaseRow → Result (Option Lease)
  lease row = elim row.holder_id [
    | none ↦ ok none
    | some holder ↦ elim row.expires_at [
      | none ↦ ok none
      | some text ↦ elim (clock.parse_time text) [
        | none ↦ err sqlite
        | some expires_at ↦
            ok (some (record { holder_id = holder; epoch = row.epoch; expires_at = expires_at }))
      ]
    ]
  ]

unfoldable pub release_lease : Bool → String → LeaseRow → LeaseRow × Result (Unit {0})
release_lease commits holder_id row = settle commits row (elim row.holder_id [
  | none ↦ ok (row, tt)
  | some holder ↦
      if holder == holder_id
      then ok (record row { holder_id = none; expires_at = none }, tt)
      else ok (row, tt)
])
