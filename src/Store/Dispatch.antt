-- ===== src/Store/Dispatch.antt =====
-- `next_dispatch_generation` of crates/store/src/runners.rs. The addition to the floor wraps, as it does in
-- a release build; SQLite turns a generation beyond an i64 into a real number, which the caller cannot read.
pub mod Rising
use bento.Shared.{
  ℕ, zero, suc, ◌+◌, ◌-◌, ◌*◌, ◌^◌, min, Bool, true, false, if◌then◌else◌, ltb, String, List,
  Option, none, some, ◌==◌,
}
use bento.Shared.Rows.{row, put}
use bento.Shared.Int.{ℤ, pos, negsuc, max_ℤ, pos_part, int_eq}
use bento.Store.Database.{Result, ok, err, sqlite, settle}
use bento.Store.Lease.{succ_ℤ}

-- `saturating_mul(1_000_000)` on i64.
unfoldable pub saturating_million : ℤ → ℤ
saturating_million (pos n) = pos (min (n * 1_000_000) (2 ^ 63 - 1))
saturating_million (negsuc n) = negsuc (min ((n + 1) * 1_000_000 - 1) (2 ^ 63 - 1))

-- `floor + 1` on i64.
unfoldable pub lowest_generation : ℤ → ℤ
lowest_generation epoch =
    if saturating_million epoch == pos (2 ^ 63 - 1)
    then negsuc (2 ^ 63 - 1)
    else succ_ℤ (saturating_million epoch)

-- The statement, with the generation that it returns.
unfoldable pub raise_generation : String → ℤ → List (String × ℤ) → Result (List (String × ℤ) × ℤ)
raise_generation object_id lowest rows = elim (row object_id rows) [
  | none ↦ ok (put object_id lowest rows, lowest)
  | some generation ↦
      if ltb (pos_part (succ_ℤ generation)) (2 ^ 63)
      then ok
          (put object_id (max_ℤ (succ_ℤ generation) lowest) rows, max_ℤ (succ_ℤ generation) lowest)
      else err sqlite
]

unfoldable pub next_dispatch_generation :
    Bool → String → (epoch : ℤ) → List (String × ℤ) → List (String × ℤ) × Result ℤ
next_dispatch_generation commits object_id epoch rows =
    settle commits rows (raise_generation object_id (lowest_generation epoch) rows)
