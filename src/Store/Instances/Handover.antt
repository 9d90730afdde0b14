-- ===== src/Store/Instances/Handover.antt =====
-- The name of a deleted instance (crates/store/src/instances.rs and names.rs).
use bento.Shared.{
  ℕ, ◌+◌, ◌-◌, ◌/◌, ◌^◌, ◌<◌, ◌≤◌, ◌≡◌, ◌≢◌, ◌⊎◌, ◌↔◌, refl, ap, sym, subst, ◌∙◌, arith, inl, inr,
  Bool, false, not, if◌then◌else◌, String, List, [], ◌∷◌, ◌==◌, ==_iff, ==_refl, string_eq, some,
  find, select, All, Bool-cases,
}
use bento.Shared.Int.{ℤ}
use bento.Types.{Instance, ReleasedName}
use bento.Store.Database.{Database, Backend, ok, with_tx, with_tx-ok}
use bento.Store.Names.{nanos, is_live, released_row, claim_name_tx}
use bento.Store.Names.Cooldown.{claim_name_tx_iff, released_row-put, IsShort, IsFree}
use bento.Store.Instances.{delete_row, delete_tx, delete_instance}
use bento.Store.Instances.Keys.{Lacks, IsDistinct, Lacks-select}
use bento.Store.Instances.Room.{get_instance_tx-ok}
use bento.Store.Instances.Success.{delete_tx-ok, release_name_tx-ok}

pub All-find :
    (P : Instance → Type 0) (test : Instance → Bool) (rows : List Instance) {i : Instance}
    → find test rows ≡ some i
    → All P rows
    → P i
All-find P test [] h all = cc
All-find P test (r ∷ rows) {i} h (p, all) = elim (Bool-cases (test r)) [
  | inl here ↦ let same : r ≡ i = ground (arith, h, here) in subst P same p
  | inr other ↦ All-find P test rows {i = i} (ground (arith, h, other)) all
]

-- Without the rows under the UUID, nobody has the name that the instance had.
deleted_name :
    (uuid : String) (rows : List Instance) {i : Instance}
    → IsDistinct (λ i. i.name) rows
    → find (λ i. i.uuid == uuid) rows ≡ some i
    → Lacks (λ i. i.name) i.name (select (λ i. not (i.uuid == uuid)) rows)
deleted_name uuid [] distinct found = cc
deleted_name uuid (r ∷ rows) {i} (d, ds) found = elim (Bool-cases (r.uuid == uuid)) [
  | inl here ↦
      let same : r ≡ i = ground (arith, found, here) in
      rw here (
        Lacks-select (λ i. i.name) i.name (λ i. not (i.uuid == uuid)) rows
          (subst (λ k. Lacks (λ i. i.name) k.name rows) same d))
  | inr other ↦
      let later : find (λ i. i.uuid == uuid) rows ≡ some i = ground (arith, found, other) in
      rw other (
        (λ e. All-find (λ k. k.name ≢ r.name) (λ i. i.uuid == uuid) rows later d (sym e)),
        deleted_name uuid rows ds later,
      )
]

pub Lacks-is_live :
    (name : String) (rows : List Instance)
    → Lacks (λ i. i.name) name rows
    → is_live name rows ≡ false
unfolding is_live
Lacks-is_live name [] h = refl
Lacks-is_live name (i ∷ rows) (h, t) = ground (arith, ==_iff i.name name, Lacks-is_live name rows t)

-- When an instance has been deleted, and names were unique, then on the tables that leaves its name can be
-- claimed by its owner at any time, and by another user exactly from the end of the cooldown on, counted
-- from the deletion; the rest of the cooldown is to be below 2 ^ 64 seconds.
pub delete_instance-claim :
    (b : Backend) (uuid : String) (deleted_at : ℕ) (db : Database) {i : Instance} (user_id : ℤ)
    (cooldown now : ℕ)
    → IsDistinct (λ i. i.name) db.instances
    → (delete_instance b uuid deleted_at db).1 ≡ ok i
    → (cooldown + deleted_at - now) / nanos < 2 ^ 64
    → (claim_name_tx i.name user_id cooldown now (delete_instance b uuid deleted_at db).0 ≡ ok tt)
      ↔ ((i.owner_id ≡ user_id) ⊎ (deleted_at + cooldown ≤ now))
unfolding delete_instance delete_row
delete_instance-claim b uuid deleted_at db {i} user_id cooldown now distinct h short =
    let after : Database = (with_tx b.commits (delete_tx b uuid deleted_at) db).0 in
    let done = with_tx-ok b.commits (delete_tx b uuid deleted_at) db h in
    let (known, released) = delete_tx-ok b uuid deleted_at db after done in
    let (rows, _, releases) = release_name_tx-ok b i.name i.owner_id deleted_at _ after released in
    let release : ReleasedName = record {
      name = i.name;
      previous_owner_id = i.owner_id;
      released_at = deleted_at;
    } in
    let gone : is_live i.name after.instances ≡ false =
      ap (is_live i.name) rows
      ∙ Lacks-is_live i.name _
          (deleted_name uuid db.instances distinct (get_instance_tx-ok uuid db known)) in
    let row : released_row i.name after.released_names ≡ some release =
      ap (released_row i.name) releases
      ∙ (released_row-put i.name release db.released_names
          ∙ ap (λ t. if t then some release else released_row i.name db.released_names)
              (==_refl i.name)) in
    let small : IsShort cooldown now (released_row i.name after.released_names) = rw row short in
    let rule = claim_name_tx_iff i.name user_id cooldown now after small in
    let free : IsFree user_id cooldown now (released_row i.name after.released_names)
        ≡ ((i.owner_id ≡ user_id) ⊎ (deleted_at + cooldown ≤ now)) =
      rw row refl in
    (λ c. subst (λ T. T) free (rule.0 c).1, λ f. rule.1 (gone, subst (λ T. T) (sym free) f))
