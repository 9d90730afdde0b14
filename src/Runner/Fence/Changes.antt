-- ===== src/Runner/Fence/Changes.antt =====
-- The changes that crates/runner/src/fence.rs admits, and what is recorded of them.
use bento.Shared.{
  ℕ, ◌≤◌, ◌<◌, true, false, ◌≡◌, inl, inr, arith, Option, some, none, string_eq, ==_iff,
  if◌then◌else◌, Option-cases,
}
use bento.Shared.Int.{ℤ, ltb_ℤ, max_ℤ, int_eq, ◌≤ℤ◌}
use bento.Runner.Protocol.{Envelope, ObjectFence, protocol_version}
use bento.Runner.Store.{
  Tables, Accepted, Sqlite, newer, accepted_epoch, accept_epoch, accept_object, outcome,
  object_generation,
}
use bento.Shared.Rows.{row, put, row-put}
use bento.Runner.Fence.{
  Fence, allowed, check_generation, check_lease, check_address, skew_seconds, unsigned_abs,
  admit_change, admit_object, admit_epoch, admit_as,
}

-- No generation of the object is above the request's, and an equal one wanted the same.
abbrev pub IsCurrent : ObjectFence → Option Accepted → Type 0
IsCurrent object none = Unit
IsCurrent object (some accepted) =
    (accepted.generation ≤ℤ object.generation)
    × (accepted.generation ≡ object.generation → accepted.digest ≡ object.digest)

check_generation-IsCurrent :
    (object : ObjectFence) (found : Option Accepted)
    → check_generation object found ≡ none
    → IsCurrent object found
unfolding check_generation
check_generation-IsCurrent object none e = tt
check_generation-IsCurrent object (some accepted) e = (
  ground arith,
  ground
      (arith, ==_iff object.generation accepted.generation, ==_iff object.digest accepted.digest),
)

-- What holds of a change that is admitted, of the tables before it and of the tables after it.
pub record IsAdmitted {N S : Type 0} (fence : Fence) (now : ℕ) (e : Envelope N S) (t t' : Tables)
    : Type 0 where
  pub object : ObjectFence
  pub names_object : e.object ≡ some object
  pub speaks_protocol : e.protocol ≡ protocol_version
  pub for_machine : e.target_machine_id ≡ some fence.machine_id
  pub current_epoch : t.epoch ≤ℤ e.epoch
  pub lease_live : now < e.lease_expires_at
  pub clock_trusted : unsigned_abs (skew_seconds now e.sent_at) ≤ fence.max_skew
  pub current_object : IsCurrent object (row object.object_id t.generations)
  pub not_done : row e.request_id t.outcomes ≡ none
  pub epoch_recorded : t'.epoch ≡ e.epoch
  pub object_recorded :
      row object.object_id t'.generations
      ≡ some (record { generation = object.generation; digest = object.digest })

check_lease-none :
    {N S : Type 0} (fence : Fence) (now : ℕ) (e : Envelope N S)
    → check_lease fence now e ≡ none
    → (now < e.lease_expires_at) × (unsigned_abs (skew_seconds now e.sent_at) ≤ fence.max_skew)
unfolding check_lease
check_lease-none fence now e h = ground arith

check_address-none :
    {N S : Type 0} (fence : Fence) (e : Envelope N S)
    → check_address fence e true ≡ none
    → (e.protocol ≡ protocol_version) × (e.target_machine_id ≡ some fence.machine_id)
unfolding check_address
check_address-none fence e h = elim (Option-cases e.target_machine_id) [
  | inl nobody ↦ absurd (ground (arith, nobody))
  | inr (target, named) ↦ ground (arith, named, ==_iff target fence.machine_id)
]

-- The tables after a change that is admitted.
abbrev recorded : ObjectFence → ℤ → Tables → Tables
recorded object epoch t = record t {
  epoch = max_ℤ t.epoch epoch;
  generations =
      if newer (row object.object_id t.generations) object.generation
      then put object.object_id (record { generation = object.generation; digest = object.digest })
          t.generations
      else t.generations;
}

recorded-object :
    (object : ObjectFence) (epoch : ℤ) (t : Tables)
    → IsCurrent object (row object.object_id t.generations)
    → row object.object_id (recorded object epoch t).generations
      ≡ some (record { generation = object.generation; digest = object.digest })
unfolding newer
recorded-object object epoch t current = elim (Option-cases (row object.object_id t.generations)) [
  | inl new ↦ ground (
    arith,
    new,
    ==_iff object.object_id object.object_id,
    row-put object.object_id object.object_id
        (record { generation = object.generation; digest = object.digest }) t.generations,
  )
  | inr (old, found) ↦ ground (
    arith,
    found,
    current,
    ==_iff object.object_id object.object_id,
    row-put object.object_id object.object_id
        (record { generation = object.generation; digest = object.digest }) t.generations,
  )
]

module _ (db : Sqlite) {N S : Type 0} (fence : Fence) (now : ℕ) (e : Envelope N S) where
  admit_change-allowed :
      (object : ObjectFence) (t : Tables)
      → (admit_change db e object t).1 ≡ some allowed
      → (row e.request_id t.outcomes ≡ none)
        × ((admit_change db e object t).0 ≡ recorded object e.epoch t)
  unfolding admit_change outcome accept_epoch accept_object
  admit_change-allowed object t h = ground arith

  -- The way to permission goes through every check.
  admit_as-parts :
      (t : Tables)
      → (admit_as db fence now e true t).1 ≡ some allowed
      → (object : ObjectFence) × (e.object ≡ some object)
        × (check_address fence e true ≡ none)
        × (ltb_ℤ e.epoch t.epoch ≡ false)
        × (check_lease fence now e ≡ none)
        × (check_generation object (row object.object_id t.generations) ≡ none)
        × ((admit_change db e object t).1 ≡ some allowed)
        × ((admit_as db fence now e true t).0 ≡ (admit_change db e object t).0)
  unfolding admit_as admit_epoch accepted_epoch admit_object object_generation
  admit_as-parts t h = elim (Option-cases e.object) [
    | inl unnamed ↦ absurd (ground (arith, unnamed))
    | inr (object, named) ↦ (
      object,
      named,
      ground (arith, named),
      ground (arith, named),
      ground (arith, named),
      ground (arith, named),
      ground (arith, named),
      ground (arith, named),
    )
  ]

  -- A change that is allowed names an object, speaks this protocol, is addressed to this machine, has
  -- an epoch no lower than the accepted one, a lease that has not run out and a clock within the skew,
  -- an object generation that is not stale or in conflict, and no outcome on record; and then its
  -- epoch and the object's generation and digest are on record.
  pub admit_as-IsAdmitted :
      (t : Tables)
      → (admit_as db fence now e true t).1 ≡ some allowed
      → IsAdmitted fence now e t (admit_as db fence now e true t).0
  admit_as-IsAdmitted t h =
      let (object, named, address, epoch, lease, generation, granted, after) = admit_as-parts t h in
      let (speaks, addressed) = check_address-none fence e address in
      let (live, trusted) = check_lease-none fence now e lease in
      let (fresh, tables) = admit_change-allowed object t granted in
      let current =
        check_generation-IsCurrent object (row object.object_id t.generations) generation in
      record {
        object = object;
        names_object = named;
        speaks_protocol = speaks;
        for_machine = addressed;
        current_epoch = ground (arith, epoch);
        lease_live = live;
        clock_trusted = trusted;
        current_object = current;
        not_done = fresh;
        epoch_recorded = rw (after, tables) (ground (arith, epoch));
        object_recorded = rw (after, tables) (recorded-object object e.epoch t current);
      }
