-- ===== src/Lifecycle/Rename/Steps.antt =====
-- What the steps of a renaming change in the tables (crates/lifecycle/src/rename.rs).
use bento.Shared.{
  ℕ, ◌≡◌, refl, sym, ap, ◌∙◌, arith, Bool, true, false, if◌then◌else◌, String, List, [], ◌∷◌, find,
  Option, none, some, ◌==◌, ==_iff, string_eq, Bool-cases, inl, inr,
}
use bento.Shared.Int.{int_eq}
use bento.Shared.Result.{Result, err}
use bento.Types.{Instance}
use bento.Store.Database.{
  Database, Backend, Result as StoreResult, Error as StoreError, settle, with_tx,
}
use bento.Store.Instances.{rename_tx, rename_instance}
use bento.Lifecycle.Manager.{
  Error, operation, Manager, World, after, external, machine_call, require, fail, after-keeps,
}
use bento.Lifecycle.Actions.{redefine_elsewhere}
use bento.Lifecycle.Rename.{Times, defined, define_new, is_gone, replace_domain}

settle-err :
    {R A : Type 0} (commits : Bool) (db : R) (body : StoreResult (R × A)) {e : StoreError}
    → (settle commits db body).1 ≡ StoreResult.err e
    → (settle commits db body).0 ≡ db
unfolding settle
settle-err commits db (StoreResult.err _) h = refl
settle-err true db (StoreResult.ok _) h = cc
settle-err false db (StoreResult.ok _) h = refl

pub rename_instance-failed :
    (b : Backend) (uuid name : String) (cooldown claimed_at released_at : ℕ) (db : Database)
    {e : StoreError}
    → (rename_instance b uuid name cooldown claimed_at released_at db).1 ≡ StoreResult.err e
    → (rename_instance b uuid name cooldown claimed_at released_at db).0 ≡ db
unfolding rename_instance with_tx
rename_instance-failed b uuid name cooldown claimed_at released_at db h =
    settle-err b.commits db (rename_tx b uuid name cooldown claimed_at released_at db) h

pub external-err :
    {A : Type 0} (r : StoreResult A) {e : Error}
    → external r ≡ err e
    → (x : StoreError) × (r ≡ StoreResult.err x)
unfolding external
external-err (StoreResult.ok a) h = cc
external-err (StoreResult.err x) h = (x, refl)

-- A chain keeps the tables if each of its steps does.
after-db :
    {M A B : Type 0} (d : Database) (first : World M × Result Error A)
    (next : A → World M → World M × Result Error B)
    → first.0.db ≡ d
    → ((a : A) (v : World M) → (next a v).0.db ≡ v.db)
    → (after first next).0.db ≡ d
after-db d first next same goes =
    after-keeps (λ v. v.db ≡ d) first next (λ e _. same) (λ a _. goes a first.0 ∙ same)

require-db : {M : Type 0} (e : Error) (b : Bool) (w : World M) → (require e b w).0.db ≡ w.db
unfolding require
require-db e true w = refl
require-db e false w = refl

pub find-uuid :
    (uuid : String) (rows : List Instance) {i : Instance}
    → find (λ k. k.uuid == uuid) rows ≡ some i
    → i.uuid ≡ uuid
find-uuid uuid [] h = cc
find-uuid uuid (r ∷ rows) {i} h = elim (Bool-cases (r.uuid == uuid)) [
  | inl here ↦
      let same : r ≡ i = ground (arith, h, here) in
      ap (λ k. k.uuid) (sym same) ∙ (==_iff r.uuid uuid).0 here
  | inr other ↦ find-uuid uuid rows {i = i} (rw other at h)
]

module _ {M : Type 0} (m : Manager M) (times : Times) where
  -- The steps on machines leave the tables.
  defined-db :
      (old : Instance) (answer : M × Bool) (w : World M)
      → (defined m times old answer w).0.db ≡ w.db
  unfolding defined
  defined-db old (machines, true) w = refl
  defined-db old (machines, false) w = refl

  gone-db :
      (old new : Instance) (gone : Bool) (w : World M)
      → ((if gone then define_new m times old new else fail operation) w).0.db ≡ w.db
  unfolding define_new
  gone-db old new true w = defined-db old (m.machines.define new w.machines) w
  gone-db old new false w = refl

  pub replace_domain-db :
      (old new : Instance) (w : World M) → (replace_domain m times old new w).0.db ≡ w.db
  unfolding replace_domain machine_call
  replace_domain-db old new w = elim (Bool-cases (m.machines.renders new w.machines)) [
    | inl renders ↦ rw renders (
        after-db w.db (machine_call (m.machines.remove old.host_id old.name) w) _ refl
          (λ answer v. gone-db old new (is_gone m times answer) v))
    | inr not_renders ↦ rw not_renders refl
  ]

  pub redefine_elsewhere-db :
      (i : Instance) (old : Option String) (w : World M)
      → (redefine_elsewhere m i old w).0.db ≡ w.db
  unfolding redefine_elsewhere machine_call
  redefine_elsewhere-db i old w = by_network (m.network_of i.owner_id)
    where
      by_network :
          (network : Option String)
          → ((elim network as (λ (n : Option String). World M → World M × Result Error (Unit {0})) [
            | none ↦ fail operation
            | some name ↦ λ v.
                after
                  (machine_call (m.machines.redefine i name old) v)
                  (λ done. require operation done)
          ])
              w).0.db
            ≡ w.db
      by_network none = refl
      by_network (some name) =
          after-db w.db (machine_call (m.machines.redefine i name old) w) _ refl
            (λ done v. require-db operation done v)
