-- ===== src/Store/Lease/History.antt =====
-- Histories of requests on the controller lease (crates/store/src/runners.rs).
use bento.Shared.{
  ℕ, ◌+◌, ◌≡◌, ap, arith, inl, inr, Bool, true, String, List, [], ◌∷◌, some, ==_iff, string_eq,
  Option-cases,
}
use bento.Shared.Int.{◌≤ℤ◌, ltb_ℤ}
use bento.Types.{Lease}
use bento.Store.Database.{ok, settle, settle-ok, settle_keeps, ◌>>=◌, >>=-eq-ok}
use bento.Store.Lease.{
  LeaseRow, Clock, settle, succ_ℤ, held_by_other, take_lease, acquire_lease, still_holds, renew,
  renew_lease, release_lease, written,
}
use bento.Store.Lease.Epochs.{acquire_lease-ok, take_lease-ok, succ_ℤ-above}

-- The requests on the lease.
pub data LeaseRequest : Type 0 where
  acquiring renewing : (commits : Bool) → String → (ttl now : ℕ) → LeaseRequest
  releasing : (commits : Bool) → String → LeaseRequest

module _ (clock : Clock) where
  -- The row after a request, and after a history of them.
  unfoldable pub after : LeaseRequest → LeaseRow → LeaseRow
  after (acquiring commits holder_id ttl now) row =
      (acquire_lease clock commits holder_id ttl now row).0
  after (renewing commits holder_id ttl now) row =
      (renew_lease clock commits holder_id ttl now row).0
  after (releasing commits holder_id) row = (release_lease commits holder_id row).0

  unfoldable pub after_all : List LeaseRequest → LeaseRow → LeaseRow
  after_all [] row = row
  after_all (r ∷ rest) row = after_all rest (after r row)

  abbrev Above : LeaseRow → LeaseRow → Type 0
  Above row row' = row.epoch ≤ℤ row'.epoch

  acquire_body :
      (holder_id : String) (ttl now : ℕ) (row row' : LeaseRow) {lease : Lease}
      → (held_by_other clock holder_id now row >>= λ _. take_lease clock holder_id (now + ttl) row)
        ≡ ok (row', lease)
      → row'.epoch ≡ succ_ℤ row.epoch
  acquire_body holder_id ttl now row row' body =
      let (_, _, taken) = >>=-eq-ok (held_by_other clock holder_id now row) _ body in
      let (_, _, left, _) = take_lease-ok clock holder_id (now + ttl) row row' taken in
      ap (λ r. r.epoch) left

  acquire-Above :
      (commits : Bool) (holder_id : String) (ttl now : ℕ) (row : LeaseRow)
      → Above row (acquire_lease clock commits holder_id ttl now row).0
  unfolding acquire_lease
  acquire-Above commits holder_id ttl now row =
      settle_keeps (Above row) commits row _ (ground arith) (λ row' lease body.
        let risen = acquire_body holder_id ttl now row row' body in
        ground (arith, risen, succ_ℤ-above row.epoch))

  renew-ok :
      (holder_id : String) (expires_at : ℕ) (text now_text : String) (row row' : LeaseRow)
      {lease : Lease}
      → renew clock holder_id expires_at text now_text row ≡ ok (row', lease)
      → (row' ≡ record row { expires_at = some text })
        × (row.holder_id ≡ some holder_id)
        × (lease.epoch ≡ row.epoch)
  unfolding renew still_holds
  renew-ok holder_id expires_at text now_text row row' h = elim (Option-cases row.holder_id) [
    | inl free ↦ absurd (ground (arith, free))
    | inr (holder, held) ↦
        (ground arith, ground (arith, held, ==_iff holder holder_id), ground arith)
  ]

  renew_body :
      (holder_id : String) (ttl now : ℕ) (row row' : LeaseRow) {lease : Lease}
      → (written clock (now + ttl) >>= λ text.
          written clock now >>= λ now_text. renew clock holder_id (now + ttl) text now_text row)
        ≡ ok (row', lease)
      → (row'.epoch ≡ row.epoch) × (row.holder_id ≡ some holder_id) × (lease.epoch ≡ row.epoch)
  renew_body holder_id ttl now row row' h =
      let (text, _, h1) = >>=-eq-ok (written clock (now + ttl)) _ h in
      let (now_text, _, h2) = >>=-eq-ok (written clock now) _ h1 in
      let (left, held, epoch) = renew-ok holder_id (now + ttl) text now_text row row' h2 in
      (ap (λ r. r.epoch) left, held, epoch)

  renew-Above :
      (commits : Bool) (holder_id : String) (ttl now : ℕ) (row : LeaseRow)
      → Above row (renew_lease clock commits holder_id ttl now row).0
  unfolding renew_lease
  renew-Above commits holder_id ttl now row =
      settle_keeps (Above row) commits row _ (ground arith) (λ row' lease body.
        let (same, _, _) = renew_body holder_id ttl now row row' body in ground (arith, same))

  release-epoch :
      (commits : Bool) (holder_id : String) (row : LeaseRow)
      → (release_lease commits holder_id row).0.epoch ≡ row.epoch
  unfolding release_lease settle
  release-epoch commits holder_id row = ground arith

  after-Above : (r : LeaseRequest) (row : LeaseRow) → Above row (after r row)
  unfolding after
  after-Above (acquiring commits holder_id ttl now) row =
      acquire-Above commits holder_id ttl now row
  after-Above (renewing commits holder_id ttl now) row = renew-Above commits holder_id ttl now row
  after-Above (releasing commits holder_id) row =
      ground (arith, release-epoch commits holder_id row)

  pub after_all-Above :
      (history : List LeaseRequest) (row : LeaseRow) → row.epoch ≤ℤ (after_all history row).epoch
  unfolding after_all
  after_all-Above [] row = ground arith
  after_all-Above (r ∷ rest) row =
      ground (arith, after-Above r row, after_all-Above rest (after r row))

  -- Whatever happens to the lease between two acquisitions that succeed, the second has a higher epoch than the
  -- first.
  pub acquire_lease-fences :
      (commits commits' : Bool) (holder_id holder' : String) (ttl now ttl' now' : ℕ)
      (row : LeaseRow) (history : List LeaseRequest) {first second : Lease}
      → (acquire_lease clock commits holder_id ttl now row).1 ≡ ok first
      → (acquire_lease clock commits' holder' ttl' now'
          (after_all history (acquire_lease clock commits holder_id ttl now row).0)).1
        ≡ ok second
      → ltb_ℤ first.epoch second.epoch ≡ true
  acquire_lease-fences commits commits' holder_id holder' ttl now ttl' now' row history h h' =
      let left = (acquire_lease clock commits holder_id ttl now row).0 in
      let (_, _, mine, one) = acquire_lease-ok clock commits holder_id ttl now row h in
      let (_, _, _, two) =
        acquire_lease-ok clock commits' holder' ttl' now' (after_all history left) h' in
      let risen = after_all-Above history left in
      ground (
        arith,
        one,
        two,
        ap (λ r. r.epoch) mine,
        risen,
        succ_ℤ-above (after_all history left).epoch,
      )

  -- A controller that renews its lease still is the one on record, and keeps the epoch it has.
  pub renew_lease-epoch :
      (commits : Bool) (holder_id : String) (ttl now : ℕ) (row : LeaseRow) {lease : Lease}
      → (renew_lease clock commits holder_id ttl now row).1 ≡ ok lease
      → (row.holder_id ≡ some holder_id)
        × (lease.epoch ≡ row.epoch)
        × ((renew_lease clock commits holder_id ttl now row).0.epoch ≡ row.epoch)
  unfolding renew_lease
  renew_lease-epoch commits holder_id ttl now row h =
      let (_, body) = settle-ok commits row _ h in
      let (same, held, epoch) = renew_body holder_id ttl now row _ body in (held, epoch, same)
