-- ===== src/Store/Lease/Epochs.antt =====
-- One acquisition of the controller lease, and another after it (crates/store/src/runners.rs).
use bento.Shared.{
  ℕ, zero, suc, ◌+◌, ◌<◌, ◌≡◌, ◌≢◌, refl, arith, inl, inr, Bool, true, false, ltb, String, some,
  ◌==◌, ==_iff, string_eq, Option-cases,
}
use bento.Shared.Int.{ℤ, pos, negsuc, ltb_ℤ}
use bento.Types.{Lease}
use bento.Store.Database.{ok, err, lease_held, settle, settle-ok, >>=-eq-ok}
use bento.Store.Lease.{LeaseRow, Clock, settle, succ_ℤ, held_by_other, take_lease, acquire_lease}

-- A time that was written is read as it was.
pub record ReadsBack (clock : Clock) : Type 0 where
  pub parse-format :
      (t : ℕ) (text : String) → clock.format_time t ≡ some text → clock.parse_time text ≡ some t

pub succ_ℤ-above : (e : ℤ) → ltb_ℤ e (succ_ℤ e) ≡ true
succ_ℤ-above (pos n) = ground arith
succ_ℤ-above (negsuc zero) = ground arith
succ_ℤ-above (negsuc (suc n)) = ground arith

module _ (clock : Clock) where
  pub take_lease-ok :
      (holder_id : String) (expires_at : ℕ) (row row' : LeaseRow) {lease : Lease}
      → take_lease clock holder_id expires_at row ≡ ok (row', lease)
      → (text : String) × (clock.format_time expires_at ≡ some text)
        × (row' ≡ record {
          holder_id = some holder_id;
          epoch = succ_ℤ row.epoch;
          expires_at = some text;
        })
        × (lease
            ≡ record { holder_id = holder_id; epoch = succ_ℤ row.epoch; expires_at = expires_at })
  unfolding take_lease
  take_lease-ok holder_id expires_at row row' h =
      elim (Option-cases (clock.format_time expires_at)) [
        | inl silent ↦ absurd (ground (arith, silent))
        | inr (text, said) ↦ (text, said, ground (arith, said), ground (arith, said))
      ]

  -- What a successful acquisition leaves.
  pub acquire_lease-ok :
      (commits : Bool) (holder_id : String) (ttl now : ℕ) (row : LeaseRow) {lease : Lease}
      → (acquire_lease clock commits holder_id ttl now row).1 ≡ ok lease
      → (text : String) × (clock.format_time (now + ttl) ≡ some text)
        × ((acquire_lease clock commits holder_id ttl now row).0 ≡ record {
          holder_id = some holder_id;
          epoch = succ_ℤ row.epoch;
          expires_at = some text;
        })
        × (lease
            ≡ record { holder_id = holder_id; epoch = succ_ℤ row.epoch; expires_at = now + ttl })
  unfolding acquire_lease
  acquire_lease-ok commits holder_id ttl now row h =
      let (_, body) = settle-ok commits row _ h in
      let (_, _, taken) = >>=-eq-ok (held_by_other clock holder_id now row) _ body in
      take_lease-ok holder_id (now + ttl) row _ taken

  kept_out :
      (holder other : String) (now end : ℕ) (epoch : ℤ) (text : String)
      → clock.parse_time text ≡ some end
      → (holder == other) ≡ false
      → ltb now end ≡ true
      → held_by_other clock other now
          (record { holder_id = some holder; epoch = epoch; expires_at = some text })
        ≡ err (lease_held holder end)
  unfolding held_by_other
  kept_out holder other now end epoch text read distinct later =
      ground (arith, read, distinct, later)

  refused :
      (commits : Bool) (holder other : String) (ttl now end : ℕ) (epoch : ℤ) (text : String)
      → clock.parse_time text ≡ some end
      → other ≢ holder
      → now < end
      → acquire_lease clock commits other ttl now
          (record { holder_id = some holder; epoch = epoch; expires_at = some text })
        ≡ (
          record { holder_id = some holder; epoch = epoch; expires_at = some text },
          err (lease_held holder end),
        )
  unfolding settle acquire_lease
  refused commits holder other ttl now end epoch text read differs early =
      let distinct : (holder == other) ≡ false = ground (arith, ==_iff holder other, differs) in
      let later : ltb now end ≡ true = ground (arith, early) in
      let kept = kept_out holder other now end epoch text read distinct later in
      rw (acquire_lease, kept) refl

  -- Nobody else takes a lease that was acquired until it ends: on the row that an acquisition left, an
  -- acquisition by another holder, at any time before the end of that lease, is refused with the holder
  -- and the end of the lease, and changes nothing; if a time is read as it was written.
  pub acquire_lease-excludes :
      ReadsBack clock
      → (commits commits' : Bool) (holder_id : String) (ttl now : ℕ) (row : LeaseRow)
        {lease : Lease}
      → (acquire_lease clock commits holder_id ttl now row).1 ≡ ok lease
      → (other : String) (ttl' now' : ℕ) → other ≢ holder_id
      → now' < now + ttl
      → acquire_lease clock commits' other ttl' now'
          (acquire_lease clock commits holder_id ttl now row).0
        ≡ (
          (acquire_lease clock commits holder_id ttl now row).0,
          err (lease_held holder_id (now + ttl)),
        )
  acquire_lease-excludes law commits commits' holder_id ttl now row h other ttl' now' differs
        early =
      let (text, said, left, _) = acquire_lease-ok commits holder_id ttl now row h in
      let read = law.parse-format (now + ttl) text said in
      rw left (
        refused commits' holder_id other ttl' now' (now + ttl) (succ_ℤ row.epoch) text read differs
          early)
