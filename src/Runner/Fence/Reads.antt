-- ===== src/Runner/Fence/Reads.antt =====
-- The tables after an admission of crates/runner/src/fence.rs that is no permission to change.
use bento.Shared.{ℕ, Bool, false, ◌≡◌, ◌≢◌, arith, some, string_eq}
use bento.Shared.Int.{int_eq}
use bento.Runner.Protocol.{Envelope}
use bento.Runner.Store.{
  Tables, Sqlite, accepted_epoch, accept_epoch, accept_object, outcome, object_generation,
}
use bento.Runner.Fence.{
  Fence, Admission, allowed, admit_change, admit_object, admit_epoch, admit_as,
}

module _ (db : Sqlite) {MachineNetwork Seed : Type 0} (fence : Fence) (now : ℕ)
    (envelope : Envelope MachineNetwork Seed) where
  -- The admission of a read leaves the runner's tables as they are, whatever its answer.
  pub admit_as_read : (t : Tables) → (admit_as db fence now envelope false t).0 ≡ t
  unfolding admit_as admit_epoch accepted_epoch
  admit_as_read t = ground arith

  -- A request that is answered, but not with permission, leaves the runner's tables as they are.
  pub admit_as_unchanged :
      (change : Bool) (t : Tables) {a : Admission}
      → (admit_as db fence now envelope change t).1 ≡ some a
      → a ≢ allowed
      → (admit_as db fence now envelope change t).0 ≡ t
  unfolding admit_as admit_epoch accepted_epoch admit_object object_generation admit_change outcome
      accept_epoch accept_object
  admit_as_unchanged change t e ne = ground arith
