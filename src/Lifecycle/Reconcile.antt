-- ===== src/Lifecycle/Reconcile.antt =====
-- crates/lifecycle/src/reconcile.rs: the report on domains and rows that disagree. The order of a listing is left
-- out. The domains of this machine are what `list` of the hypervisor answers.
pub mod Report
use bento.Shared.{
  Bool, true, false, ◌&&◌, not, if◌then◌else◌, List, [], ◌∷◌, map, Option, none, some, String,
  string_eq, contains, select, ◌==◌,
}
use bento.Shared.Int.{ℤ, int_eq}
use bento.Shared.Result.{Result, ok, err}
use bento.Types.{Instance, State}
use bento.Store.Database.{Database}
use bento.Lifecycle.Manager.{Error, operation, Manager, World, Step}

pub record DomainInfo : Type 0 where
  pub name : String
  pub uuid : String
  pub state : State

pub record ReconcileReport : Type 0 where
  pub domains_without_rows : List DomainInfo
  pub rows_without_domains : List Instance

unfoldable pub no_rows : {A : Type 0} → List A → Bool
no_rows [] = true
no_rows (x ∷ xs) = false

unfoldable pub is_empty : ReconcileReport → Bool
is_empty report = no_rows report.domains_without_rows && no_rows report.rows_without_domains

unfoldable pub instances_on_host : (host_id : ℤ) → Database → List Instance
instances_on_host host_id db = select (λ i. i.host_id == host_id) db.instances

abbrev pub domain_ids : List DomainInfo → List String
domain_ids = map (λ d. d.uuid)

abbrev pub row_ids : List Instance → List String
row_ids = map (λ i. i.uuid)

unfoldable pub report : List DomainInfo → List Instance → ReconcileReport
report domains rows = record {
  domains_without_rows = select (λ d. not (contains (row_ids rows) d.uuid)) domains;
  rows_without_domains = select (λ i. not (contains (domain_ids domains) i.uuid)) rows;
}

-- Whether the rows can be read is a matter of SQLite.
module _ {M : Type 0} (m : Manager M) (list : M → Option (List DomainInfo)) (reads : Bool) where
  unfoldable pub reconcile : Step M ReconcileReport
  reconcile w = elim (list w.machines) [
    | none ↦ (w, err operation)
    | some domains ↦
        if reads
        then (w, ok (report domains (instances_on_host m.host_id w.db)))
        else (w, err operation)
  ]
