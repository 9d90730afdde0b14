-- ===== src/Store/Instances/Renaming.antt =====
-- A renaming and its reversal (`rename_instance` of crates/store/src/instances.rs).
use bento.Shared.{
  ℕ, ◌≡◌, ◌≢◌, refl, ap, sym, subst, ◌∙◌, arith, inl, inr, true, false, if◌then◌else◌, String, List,
  [], ◌∷◌, ◌==◌, ==_iff, ==_refl, string_eq, some, find, Bool-cases,
}
use bento.Shared.Int.{ℤ, int_eq}
use bento.Types.{Instance, ReleasedName}
use bento.Store.Database.{Database, Backend, ok, with_tx, with_tx-ok, settle}
use bento.Store.Names.{
  is_live, released_row, check_release, claim_name_tx, put_release, release_name_tx,
}
use bento.Store.Names.Cooldown.{released_row-put}
use bento.Store.Instances.{get_instance_tx, update_rows, rename_tx, rename_instance}
use bento.Store.Instances.Keys.{Lacks, IsDistinct, renamed, update_rows-absent}
use bento.Store.Instances.Room.{get_instance_tx-ok}
use bento.Store.Instances.Success.{rename_tx-ok, release_name_tx-ok}
use bento.Store.Instances.Handover.{All-find, Lacks-is_live}

-- Who has a name in the record of releases may claim it, while nobody has it.
claim-own :
    (name : String) (user_id : ℤ) (cooldown now : ℕ) (db : Database) (release : ReleasedName)
    → is_live name db.instances ≡ false
    → released_row name db.released_names ≡ some release
    → release.previous_owner_id ≡ user_id
    → claim_name_tx name user_id cooldown now db ≡ ok tt
unfolding claim_name_tx
claim-own name user_id cooldown now db release free row own =
    rw (free, row)
      (unfold check_release in ground (arith, own, ==_iff release.previous_owner_id user_id))

get_instance_tx-found :
    (uuid : String) (db : Database) {i : Instance}
    → find (λ k. k.uuid == uuid) db.instances ≡ some i
    → get_instance_tx uuid db ≡ ok i
unfolding get_instance_tx
get_instance_tx-found uuid db h = rw (h, get_instance_tx) refl

module _ (uuid new_name : String) where
  find-renamed :
      (rows : List Instance) {i : Instance}
      → find (λ i. i.uuid == uuid) rows ≡ some i
      → find (λ i. i.uuid == uuid) (update_rows uuid (renamed new_name) rows)
        ≡ some (renamed new_name i)
  unfolding update_rows
  find-renamed [] h = cc
  find-renamed (r ∷ rows) {i} h = elim (Bool-cases (r.uuid == uuid)) [
    | inl here ↦
        let same : r ≡ i = ground (arith, h, here) in
        rw (here, here) (ap (λ k. some (renamed new_name k)) same)
    | inr other ↦ rw (other, other) (find-renamed rows {i = i} (rw other at h))
  ]

  -- The old name is free after the renaming.
  renamed-Lacks :
      (rows : List Instance) {i : Instance}
      → IsDistinct (λ i. i.uuid) rows
      → IsDistinct (λ i. i.name) rows
      → new_name ≢ i.name
      → find (λ i. i.uuid == uuid) rows ≡ some i
      → Lacks (λ i. i.name) i.name (update_rows uuid (renamed new_name) rows)
  unfolding update_rows
  renamed-Lacks [] u n ne h = cc
  renamed-Lacks (r ∷ rows) {i} (u, us) (n, ns) ne h = elim (Bool-cases (r.uuid == uuid)) [
    | inl here ↦
        let same : r ≡ i = ground (arith, h, here) in
        let absent : Lacks (λ i. i.uuid) uuid rows =
          subst (λ k. Lacks (λ i. i.uuid) k rows) ((==_iff r.uuid uuid).0 here) u in
        rw (here, update_rows-absent uuid (renamed new_name) rows absent)
          (ne, subst (λ k. Lacks (λ i. i.name) k.name rows) same n)
    | inr other ↦
        let later : find (λ i. i.uuid == uuid) rows ≡ some i = rw other at h in
        rw other (
          (λ e. All-find (λ k. k.name ≢ r.name) (λ i. i.uuid == uuid) rows later n (sym e)),
          renamed-Lacks rows {i = i} us ns ne later,
        )
  ]

  -- The rows come back.
  renamed_back :
      (rows : List Instance) {i : Instance}
      → IsDistinct (λ i. i.uuid) rows
      → find (λ i. i.uuid == uuid) rows ≡ some i
      → update_rows uuid (renamed i.name) (update_rows uuid (renamed new_name) rows) ≡ rows
  unfolding update_rows
  renamed_back [] u h = cc
  renamed_back (r ∷ rows) {i} (u, us) h = elim (Bool-cases (r.uuid == uuid)) [
    | inl here ↦
        let same : r ≡ i = ground (arith, h, here) in
        let absent : Lacks (λ i. i.uuid) uuid rows =
          subst (λ k. Lacks (λ i. i.uuid) k rows) ((==_iff r.uuid uuid).0 here) u in
        rw
          (
            here,
            here,
            update_rows-absent uuid (renamed new_name) rows absent,
            update_rows-absent uuid (renamed i.name) rows absent,
          )
          (ap (λ (k : Instance). record r { name = k.name } ∷ rows) (sym same))
    | inr other ↦ rw (other, other) (ap (λ t. r ∷ t) (renamed_back rows {i = i} us (rw other at h)))
  ]

module _ (b : Backend) (uuid new_name : String) (cooldown claimed_at released_at : ℕ)
    (db : Database) where
  abbrev after_rename : Database
  after_rename = (rename_instance b uuid new_name cooldown claimed_at released_at db).0

  -- A renaming that succeeded, of an instance with another name.
  rename-done :
      {i : Instance}
      → get_instance_tx uuid db ≡ ok i
      → i.name ≢ new_name
      → (rename_instance b uuid new_name cooldown claimed_at released_at db).1 ≡ ok tt
      → (after_rename.instances ≡ update_rows uuid (renamed new_name) db.instances)
        × (after_rename.released_names
            ≡ put_release
                (record {
                  name = i.name;
                  previous_owner_id = i.owner_id;
                  released_at = released_at;
                })
                db.released_names)
  unfolding rename_instance
  rename-done {i} known ne h =
      let done =
        with_tx-ok b.commits (rename_tx b uuid new_name cooldown claimed_at released_at) db h in
      let (j, found, how) =
        rename_tx-ok b uuid new_name cooldown claimed_at released_at db
          (with_tx b.commits (rename_tx b uuid new_name cooldown claimed_at released_at) db).0
          done in
      let same : j ≡ i = ground (arith, found, known) in
      elim how [
        | inl (e, _) ↦ absurd (ne (ap (λ (k : Instance). k.name) (sym same) ∙ e))
        | inr (_, released) ↦
            let (rows, _, releases) =
              release_name_tx-ok b j.name j.owner_id released_at _ _ released in
            (
              rows,
              releases
                  ∙ ap
                      (λ (k : Instance).
                        put_release
                          (record {
                            name = k.name;
                            previous_owner_id = k.owner_id;
                            released_at = released_at;
                          })
                          db.released_names)
                      same,
            )
      ]

  -- The old name can be taken back at once, and then the rows are as they were; if the keys were unique
  -- and the time of the reversal can be written.
  pub rename_back-rows :
      (undo : Backend) (claimed_at' released_at' : ℕ) {i : Instance}
      → IsDistinct (λ k. k.uuid) db.instances
      → IsDistinct (λ k. k.name) db.instances
      → get_instance_tx uuid db ≡ ok i
      → i.name ≢ new_name
      → (rename_instance b uuid new_name cooldown claimed_at released_at db).1 ≡ ok tt
      → undo.formats released_at' ≡ true
      → undo.commits ≡ true
      → (rename_instance undo uuid i.name cooldown claimed_at' released_at'
          after_rename).0.instances
        ≡ db.instances
  rename_back-rows undo claimed_at' released_at' {i} uuids names known ne h formats commits =
      let (rows, releases) = rename-done {i = i} known ne h in
      let found = get_instance_tx-ok uuid db known in
      let again : get_instance_tx uuid after_rename ≡ ok (renamed new_name i) =
        get_instance_tx-found uuid after_rename (
          ap (find (λ k. k.uuid == uuid)) rows
          ∙ find-renamed uuid new_name db.instances {i = i} found) in
      let free : is_live i.name after_rename.instances ≡ false =
        ap (is_live i.name) rows
        ∙ Lacks-is_live i.name _ (
            renamed-Lacks uuid new_name db.instances {i = i} uuids names (λ e. ne (sym e)) found) in
      let release : ReleasedName = record {
        name = i.name;
        previous_owner_id = i.owner_id;
        released_at = released_at;
      } in
      let row : released_row i.name after_rename.released_names ≡ some release =
        ap (released_row i.name) releases
        ∙ (released_row-put i.name release db.released_names
            ∙ ap (λ t. if t then some release else released_row i.name db.released_names)
                (==_refl i.name)) in
      let claimed : claim_name_tx i.name i.owner_id cooldown claimed_at' after_rename ≡ ok tt =
        claim-own i.name i.owner_id cooldown claimed_at' after_rename release free row refl in
      reversed after_rename again claimed formats commits
      ∙ (ap (update_rows uuid (renamed i.name)) rows
          ∙ renamed_back uuid new_name db.instances {i = i} uuids found)
    where
      reversed :
          (d : Database)
          → get_instance_tx uuid d ≡ ok (renamed new_name i)
          → claim_name_tx i.name i.owner_id cooldown claimed_at' d ≡ ok tt
          → undo.formats released_at' ≡ true
          → undo.commits ≡ true
          → (rename_instance undo uuid i.name cooldown claimed_at' released_at' d).0.instances
            ≡ update_rows uuid (renamed i.name) d.instances
      reversed d found claimed written commits =
          let other : (new_name == i.name) ≡ false = ground (arith, ne, ==_iff new_name i.name) in
          unfold rename_instance with_tx settle rename_tx release_name_tx in
          rw (found, other, claimed, written, commits) refl
