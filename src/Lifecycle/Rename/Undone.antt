-- ===== src/Lifecycle/Rename/Undone.antt =====
-- What a renaming that fails leaves behind (crates/lifecycle/src/rename.rs).
use bento.Shared.{
  ◌≡◌, ◌≢◌, refl, sym, ap, subst, ◌∙◌, arith, Bool, true, false, ◌&&◌, not, if◌then◌else◌, String,
  some, ◌==◌, ==_iff, string_eq, Bool-cases, inl, inr,
}
use bento.Shared.Int.{int_eq}
use bento.Shared.Result.{Result, ok, err}
use bento.Types.{Instance}
use bento.Store.Database.{Database, Result as StoreResult}
use bento.Store.Instances.{get_instance_tx, rename_instance}
use bento.Store.Instances.Kept.{IsKeyed}
use bento.Store.Instances.Renaming.{rename_back-rows}
use bento.Lifecycle.Manager.{
  on_rename, on_unwind, Error, Manager, World, after, store_read, store_call, after-both,
  external-ok,
}
use bento.Lifecycle.Actions.Power.{hyp_for-unchanged}
use bento.Store.Instances.Room.{get_instance_tx-ok}
use bento.Lifecycle.Actions.{instance_of, hyp_for, redefine_elsewhere}
use bento.Lifecycle.Rename.{
  domain_gone, Times, unwind_rename, or_unwind, write_name, replace_domain, rename_here,
  rename_elsewhere, rename_stopped, rename_found, rename,
}
use bento.Lifecycle.Rename.Steps.{
  rename_instance-failed, external-err, find-uuid, replace_domain-db, redefine_elsewhere-db,
}

-- A failure leaves the instances that there were.
abbrev Restores : {M A : Type 0} → Database → World M × Result Error A → Type 0
Restores db (w, r) = (e : Error) → r ≡ err e → w.db.instances ≡ db.instances

module _ {M : Type 0} (m : Manager M) (times : Times) where
  -- A failure after the name was written takes it back.
  or_unwind-Restores :
      (i : Instance) (new_name : String) (db : Database)
      (answer : World M × Result Error (Unit {0}))
      → IsKeyed db.instances
      → get_instance_tx i.uuid db ≡ StoreResult.ok i
      → i.name ≢ new_name
      → (rename_instance
          (m.backend on_rename)
          i.uuid
          new_name
          m.cooldown
          times.claimed_at
          times.released_at
          db).1
        ≡ StoreResult.ok tt
      → (m.backend on_unwind).commits ≡ true
      → (m.backend on_unwind).formats times.dropped_at ≡ true
      → answer.0.db
        ≡ (rename_instance
            (m.backend on_rename)
            i.uuid
            new_name
            m.cooldown
            times.claimed_at
            times.released_at
            db).0
      → Restores db (or_unwind m times i.uuid i.name answer)
  unfolding or_unwind unwind_rename
  or_unwind-Restores i new_name db (w, ok done) keyed known ne written commits formats same e h = cc
  or_unwind-Restores i new_name db (w, err x) keyed known ne written commits formats same e h =
      ap
        (λ d.
          (rename_instance (m.backend on_unwind) i.uuid i.name m.cooldown times.unwound_at
            times.dropped_at d).0.instances)
        same
      ∙ rename_back-rows (m.backend on_rename) i.uuid new_name m.cooldown times.claimed_at
          times.released_at db (m.backend on_unwind) times.unwound_at times.dropped_at {i = i}
          keyed.uuids keyed.names known ne written formats commits

  -- The name is written, and then the rest is done or undone.
  written-Restores :
      (i : Instance) (new_name : String) (gone : Bool)
      (rest : World M → World M × Result Error (Unit {0})) (w : World M)
      → IsKeyed w.db.instances
      → get_instance_tx i.uuid w.db ≡ StoreResult.ok i
      → i.name ≢ new_name
      → (m.backend on_unwind).commits ≡ true
      → (m.backend on_unwind).formats times.dropped_at ≡ true
      → ((v : World M) → (rest v).0.db ≡ v.db)
      → Restores w.db (
          after
            (write_name m times i.uuid new_name w)
            (λ _ v. if gone then (v, ok tt) else or_unwind m times i.uuid i.name (rest v)))
  unfolding write_name store_call
  written-Restores i new_name gone rest w keyed known ne commits formats keeps =
      after-both (Restores w.db) (write_name m times i.uuid new_name w) _
        (λ x failed y h.
          ap (λ d. d.instances)
            (rename_instance-failed (m.backend on_rename) i.uuid new_name m.cooldown
              times.claimed_at times.released_at w.db (external-err _ failed).1))
        (λ _ done. by_gone gone (external-ok _ done))
    where
      by_gone :
          (b : Bool)
          → (rename_instance
              (m.backend on_rename)
              i.uuid
              new_name
              m.cooldown
              times.claimed_at
              times.released_at
              w.db).1
            ≡ StoreResult.ok tt
          → Restores w.db (
              if b
              then ((write_name m times i.uuid new_name w).0, ok tt)
              else or_unwind m times i.uuid i.name (rest (write_name m times i.uuid new_name w).0))
      by_gone true written = λ e h. cc
      by_gone false written =
          or_unwind-Restores i new_name w.db (rest (write_name m times i.uuid new_name w).0) keyed
            known ne written commits formats (keeps (write_name m times i.uuid new_name w).0)

  rename_stopped-Restores :
      (i : Instance) (new_name : String) (state : Result Error Bool) (w : World M)
      → IsKeyed w.db.instances
      → get_instance_tx i.uuid w.db ≡ StoreResult.ok i
      → i.name ≢ new_name
      → (m.backend on_unwind).commits ≡ true
      → (m.backend on_unwind).formats times.dropped_at ≡ true
      → Restores w.db (rename_stopped m times i new_name state w)
  unfolding rename_stopped rename_here rename_elsewhere
  rename_stopped-Restores i new_name (err x) w keyed known ne commits formats = λ e h. refl
  rename_stopped-Restores i new_name (ok gone) w keyed known ne commits formats =
      let new : Instance = record i { name = new_name } in
      let local : Bool = i.host_id == m.host_id in
      elim (Bool-cases local) [
        | inl here ↦ elim (Bool-cases (not gone && not m.has_definer)) [
          | inl refused ↦ rw (here, refused) (λ e h. refl)
          | inr goes ↦
              rw (here, goes)
                (written-Restores i new_name gone (replace_domain m times i new) w keyed known ne
                  commits formats (replace_domain-db m times i new))
        ]
        | inr elsewhere ↦ rw elsewhere (
            written-Restores i new_name gone (redefine_elsewhere m new (some i.name)) w keyed known
              ne commits formats (redefine_elsewhere-db m times new (some i.name)))
      ]

  rename_found-Restores :
      (new_name : String) (i : Instance) (w : World M)
      → IsKeyed w.db.instances
      → get_instance_tx i.uuid w.db ≡ StoreResult.ok i
      → (m.backend on_unwind).commits ≡ true
      → (m.backend on_unwind).formats times.dropped_at ≡ true
      → Restores w.db (rename_found m times new_name i w)
  unfolding rename_found
  rename_found-Restores new_name i w keyed known commits formats =
      elim (Bool-cases (new_name == i.name)) [
        | inl same ↦ rw same (λ e h. refl)
        | inr other ↦
            let ne : i.name ≢ new_name = λ e. ground (arith, e, other, ==_iff new_name i.name) in
            let reached = hyp_for-unchanged m i w in
            rw other (
              after-both (Restores w.db) (hyp_for m i w) _
                (λ x _ e h. ap (λ v. v.db.instances) reached)
                (λ _ _.
                  subst
                    (λ v. Restores w.db (
                      rename_stopped m times i new_name
                        (domain_gone (m.machines.domain_state i.host_id i.name v.machines)) v))
                    (sym reached)
                    (rename_stopped-Restores i new_name
                      (domain_gone (m.machines.domain_state i.host_id i.name w.machines)) w keyed
                      known ne commits formats)))
      ]

  -- A renaming that fails at any step, on this machine or another, leaves the instances as they were, with their old
  -- names; if the keys of the table were unique, and the reversal can be done: its transaction commits, whatever the
  -- first did, and its time can be written.
  pub rename-Restores :
      (uuid new_name : String) (w : World M) (e : Error)
      → IsKeyed w.db.instances
      → (m.backend on_unwind).commits ≡ true
      → (m.backend on_unwind).formats times.dropped_at ≡ true
      → (rename m times uuid new_name w).1 ≡ err e
      → (rename m times uuid new_name w).0.db.instances ≡ w.db.instances
  unfolding rename instance_of store_read
  rename-Restores uuid new_name w e keyed commits formats =
      after-both (Restores w.db) (instance_of m uuid w) (rename_found m times new_name)
        (λ x _ y h. refl)
        (λ i read.
          let known = external-ok _ read in
          rename_found-Restores new_name i w keyed
            (subst (λ k. get_instance_tx k w.db ≡ StoreResult.ok i)
              (sym (find-uuid uuid w.db.instances (get_instance_tx-ok uuid w.db known))) known)
            commits formats)
        e
