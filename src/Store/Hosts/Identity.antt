-- ===== src/Store/Hosts/Identity.antt =====
-- The machine that a host's row stands for (crates/store/src/hosts.rs and runners.rs).
use bento.Shared.{ℕ, ◌≡◌, sym, subst, Bool, true, String, List, [], ◌∷◌, some, string_eq, ◌↔◌}
use bento.Shared.Int.{ℤ, int_eq}
use bento.Types.{Host}
use bento.Store.Database.{ok, settle, settle_keeps, settle-ok}
use bento.Store.Observation.{HostHealth, HostSeen, placeable}
use bento.Store.Hosts.{Fleet, observe_tx, observe_host, ensure_tx, ensure_host}
use bento.Store.Hosts.Rows.{
  IsMachine, learn_machine-IsMachine, observe_tx-ok, write_host-IsMachine, judge-good,
  learn_machine-row, ensure_tx-ok,
}

observe_host-IsMachine :
    (formats : ℕ → Bool) (commits : Bool) (host_id : ℤ) (seen : HostSeen) (now : ℕ) (fleet : Fleet)
    (j : ℤ) (known : String)
    → IsMachine j known fleet.hosts
    → IsMachine j known (observe_host formats commits host_id seen now fleet).0.hosts
unfolding observe_host
observe_host-IsMachine formats commits host_id seen now fleet j known before =
    settle_keeps (λ f. IsMachine j known f.hosts) commits fleet
      (observe_tx formats host_id seen now fleet) before
      (λ fleet' health body.
        let (h, found, learn, _) = observe_tx-ok formats host_id seen now fleet fleet' body in
        learn_machine-IsMachine host_id j known h seen.machine_id fleet.hosts found learn before)

ensure_host-IsMachine :
    (formats : ℕ → Bool) (new_id : List Host → ℤ) (commits : Bool)
    (machine_id name libvirt_uri : String) (now : ℕ) (fleet : Fleet) (j : ℤ) (known : String)
    → IsMachine j known fleet.hosts
    → IsMachine j known
        (ensure_host formats new_id commits machine_id name libvirt_uri now fleet).0.hosts
unfolding ensure_host
ensure_host-IsMachine formats new_id commits machine_id name libvirt_uri now fleet j known before =
    settle_keeps (λ f. IsMachine j known f.hosts) commits fleet
      (ensure_tx formats new_id machine_id name libvirt_uri now fleet) before
      (λ fleet' host body.
        let (write, _) =
          ensure_tx-ok formats new_id machine_id name libvirt_uri now fleet fleet' body in
        write_host-IsMachine formats new_id j known machine_id name libvirt_uri now fleet.hosts
          fleet'.hosts write before)

-- The requests that write the hosts' rows.
pub data HostRequest : Type 0 where
  observing : (commits : Bool) → ℤ → HostSeen → (now : ℕ) → HostRequest
  ensuring : (commits : Bool) → (machine_id name libvirt_uri : String) (now : ℕ) → HostRequest

module _ (formats : ℕ → Bool) (new_id : List Host → ℤ) where
  unfoldable pub after : HostRequest → Fleet → Fleet
  after (observing commits host_id seen now) fleet =
      (observe_host formats commits host_id seen now fleet).0
  after (ensuring commits machine_id name libvirt_uri now) fleet =
      (ensure_host formats new_id commits machine_id name libvirt_uri now fleet).0

  unfoldable pub after_all : List HostRequest → Fleet → Fleet
  after_all [] fleet = fleet
  after_all (r ∷ rest) fleet = after_all rest (after r fleet)

  -- A row that stands for a machine stands for that machine ever after, whatever the runners answer and
  -- whichever machines are registered.
  pub after_all-IsMachine :
      (history : List HostRequest) (fleet : Fleet) (id : ℤ) (machine_id : String)
      → IsMachine id machine_id fleet.hosts
      → IsMachine id machine_id (after_all history fleet).hosts
  unfolding after_all after
  after_all-IsMachine [] fleet id machine_id known = known
  after_all-IsMachine (observing commits host_id seen now ∷ rest) fleet id machine_id known =
      after_all-IsMachine rest (observe_host formats commits host_id seen now fleet).0 id machine_id
        (observe_host-IsMachine formats commits host_id seen now fleet id machine_id known)
  after_all-IsMachine (ensuring commits new name libvirt_uri now ∷ rest) fleet id machine_id known =
      after_all-IsMachine rest (ensure_host formats new_id commits new name libvirt_uri now fleet).0
        id machine_id
        (ensure_host-IsMachine formats new_id commits new name libvirt_uri now fleet id machine_id
          known)

-- A runner's answer makes its host one to place on exactly if the answer names the machine that the host's
-- row then stands for.
pub observe_host-placeable :
    (formats : ℕ → Bool) (commits : Bool) (host_id : ℤ) (seen : HostSeen) (now : ℕ) (fleet : Fleet)
    {health : HostHealth}
    → (observe_host formats commits host_id seen now fleet).1 ≡ ok health
    → (placeable health ≡ true) ↔ (
        (machine_id : String) × (seen.machine_id ≡ some machine_id)
        × IsMachine host_id machine_id
            (observe_host formats commits host_id seen now fleet).0.hosts)
unfolding observe_host
observe_host-placeable formats commits host_id seen now fleet {health} e =
    let (_, body) = settle-ok commits fleet (observe_tx formats host_id seen now fleet) e in
    let fleet' = (settle commits fleet (observe_tx formats host_id seen now fleet)).0 in
    let (h, found, learn, judged) = observe_tx-ok formats host_id seen now fleet fleet' body in
    (
      λ good.
          let (m, reads, either) =
            (judge-good h.machine_id seen.machine_id).0
              (subst (λ x. placeable x ≡ true) judged good) in
          let row =
            learn_machine-row host_id h seen.machine_id fleet.hosts fleet'.hosts m found learn
              reads in
          (m, reads, row.1 either),
      λ (m, reads, stands).
          let row =
            learn_machine-row host_id h seen.machine_id fleet.hosts fleet'.hosts m found learn
              reads in
          let either = row.0 stands in
          subst (λ x. placeable x ≡ true) (sym judged)
            ((judge-good h.machine_id seen.machine_id).1 (m, reads, either)),
    )
