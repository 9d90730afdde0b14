-- ===== src/Store/Hosts.antt =====
-- crates/store/src/hosts.rs and runners.rs: the hosts, and what the controller last saw of each of them.
-- The rows of `hosts` stand in the order of their ids. The id that SQLite gives a new row, and whether a
-- time can be written, are parameters.
pub mod Rows
pub mod Identity
pub mod Placing
mod Tests
use bento.Shared.{
  ℕ, Bool, true, false, ◌&&◌, ◌||◌, not, if◌then◌else◌, nat_beq, String, List, [], ◌∷◌, Option,
  none, some, ◌==◌, string_eq, ◌++◌, length,
}
use bento.Shared.Int.{ℤ, int_eq}
use bento.Types.{Placement, Instance, Slot, Host}
use bento.Store.Observation.{HostHealth, HostSeen, Observation}
use bento.Store.Database.{Result, ok, err, ◌>>=◌, settle, not_found, sqlite}
use bento.Store.Instances.{slot_to_sql}
use bento.Store.Slots.{new_slot}

pub record Fleet : Type 0 where
  pub hosts : List Host
  pub observations : List (ℤ × Observation)
  pub slots : List Slot
  pub instances : List Instance

-- `SELECT … FROM hosts WHERE id = ?`
unfoldable pub host_row : ℤ → List Host → Option Host
host_row id [] = none
host_row id (h ∷ rows) = if h.id == id then some h else host_row id rows

unfoldable pub update_host : ℤ → (Host → Host) → List Host → List Host
update_host id change [] = []
update_host id change (h ∷ rows) = (if h.id == id then change h else h) ∷ update_host id change rows

unfoldable pub is_machine : String → Host → Bool
is_machine machine_id h = elim h.machine_id [ none ↦ false | some m ↦ m == machine_id ]

-- The unique index on machine ids.
unfoldable pub machine_known : String → List Host → Bool
machine_known machine_id [] = false
machine_known machine_id (h ∷ rows) = is_machine machine_id h || machine_known machine_id rows

unfoldable pub observation_row : ℤ → List (ℤ × Observation) → Option Observation
observation_row id [] = none
observation_row id ((k, o) ∷ rows) = if k == id then some o else observation_row id rows

unfoldable pub put_observation : ℤ → Observation → List (ℤ × Observation) → List (ℤ × Observation)
put_observation id o [] = (id, o) ∷ []
put_observation id o ((k, p) ∷ rows) =
    if k == id then (id, o) ∷ rows else (k, p) ∷ put_observation id o rows

-- `COALESCE(a, b)`
unfoldable pub coalesce {ℓ} : {A : Type ℓ} → Option A → Option A → Option A
coalesce none b = b
coalesce (some a) b = some a

-- `ON CONFLICT(host_id) DO UPDATE SET …`
unfoldable pub merge_observation : Option Observation → Observation → Observation
merge_observation none new = new
merge_observation (some old) new = record {
  health = new.health;
  last_contact_at = coalesce new.last_contact_at old.last_contact_at;
  accepted_epoch = new.accepted_epoch;
  arch = coalesce new.arch old.arch;
  cpu_count = coalesce new.cpu_count old.cpu_count;
  memory_total_mib = coalesce new.memory_total_mib old.memory_total_mib;
  storage_total_gib = coalesce new.storage_total_gib old.storage_total_gib;
  storage_available_gib = coalesce new.storage_available_gib old.storage_available_gib;
  hypervisor_version = coalesce new.hypervisor_version old.hypervisor_version;
  last_error = new.last_error;
}

unfoldable pub judge : (known reported : Option String) → HostHealth
judge known none = HostHealth.unreachable
judge none (some reported) = HostHealth.ok
judge (some stored) (some reported) =
    if stored == reported then HostHealth.ok else HostHealth.mismatched

-- A machine ID is written on first contact only.
unfoldable pub learn_machine : ℤ → (known reported : Option String) → List Host → Result (List Host)
learn_machine host_id (some stored) reported hosts = ok hosts
learn_machine host_id none none hosts = ok hosts
learn_machine host_id none (some reported) hosts =
    if machine_known reported hosts
    then err sqlite
    else ok (update_host host_id (λ h. record h { machine_id = some reported }) hosts)

module _ (formats : ℕ → Bool) where
  unfoldable pub contact_time : HostHealth → (now : ℕ) → Result (Option ℕ)
  contact_time HostHealth.ok now = if formats now then ok (some now) else err sqlite
  contact_time _ now = ok none

  unfoldable pub observe_tx : ℤ → HostSeen → (now : ℕ) → Fleet → Result (Fleet × HostHealth)
  observe_tx host_id seen now fleet = elim (host_row host_id fleet.hosts) [
    | none ↦ err sqlite
    | some host ↦
        let health = judge host.machine_id seen.machine_id in
        learn_machine host_id host.machine_id seen.machine_id fleet.hosts >>= λ hosts.
        contact_time health now >>= λ contact. slot_to_sql seen.cpu_count >>= λ cpu_count.
        slot_to_sql seen.memory_total_mib >>= λ memory_total_mib.
        slot_to_sql seen.storage_total_gib >>= λ storage_total_gib.
        slot_to_sql seen.storage_available_gib >>= λ storage_available_gib. ok (
          record fleet {
            hosts = hosts;
            observations =
                put_observation host_id
                  (merge_observation (observation_row host_id fleet.observations) (record {
                    health = health;
                    last_contact_at = contact;
                    accepted_epoch = seen.accepted_epoch;
                    arch = seen.arch;
                    cpu_count = cpu_count;
                    memory_total_mib = memory_total_mib;
                    storage_total_gib = storage_total_gib;
                    storage_available_gib = storage_available_gib;
                    hypervisor_version = seen.hypervisor_version;
                    last_error = seen.error;
                  }))
                  fleet.observations;
          },
          health,
        )
  ]

  unfoldable pub observe_host : Bool → ℤ → HostSeen → (now : ℕ) → Fleet → Fleet × Result HostHealth
  observe_host commits host_id seen now fleet =
      settle commits fleet (observe_tx host_id seen now fleet)

-- `UPDATE hosts SET name = ?, libvirt_uri = ? WHERE machine_id = ?`
unfoldable pub rename_machine : String → (name libvirt_uri : String) → List Host → List Host
rename_machine machine_id name libvirt_uri [] = []
rename_machine machine_id name libvirt_uri (h ∷ rows) =
    (if is_machine machine_id h then record h { name = name; libvirt_uri = libvirt_uri } else h)
    ∷ rename_machine machine_id name libvirt_uri rows

-- `SELECT … FROM hosts WHERE machine_id = ?`
unfoldable pub machine_row : String → List Host → Option Host
machine_row machine_id [] = none
machine_row machine_id (h ∷ rows) =
    if is_machine machine_id h then some h else machine_row machine_id rows

-- The one row of the table, if no machine has claimed it.
unfoldable pub unclaimed : List Host → Option ℤ
unclaimed [] = none
unclaimed (h ∷ []) = elim h.machine_id [ none ↦ some h.id | some _ ↦ none ]
unclaimed (h ∷ g ∷ rows) = none

-- Another machine has the name: the schema's UNIQUE.
unfoldable pub name_clashes : (machine_id name : String) → List Host → Bool
name_clashes machine_id name [] = false
name_clashes machine_id name (h ∷ rows) =
    ((h.name == name) && not (is_machine machine_id h)) || name_clashes machine_id name rows

-- The row of a machine that is seen for the first time.
unfoldable pub new_host : ℤ → (machine_id name libvirt_uri : String) (now : ℕ) → Host
new_host id machine_id name libvirt_uri now = record {
  id = id;
  machine_id = some machine_id;
  name = name;
  libvirt_uri = libvirt_uri;
  endpoint = none;
  underlay = none;
  enabled = true;
  placement = Placement.active;
  created_at = now;
}

module _ (formats : ℕ → Bool) (new_id : List Host → ℤ) where
  unfoldable pub write_host :
      (machine_id name libvirt_uri : String) (now : ℕ) → List Host → Result (List Host)
  write_host machine_id name libvirt_uri now hosts =
      let claim : Host → Host =
        λ h. record h { machine_id = some machine_id; name = name; libvirt_uri = libvirt_uri } in
      if machine_known machine_id hosts
      then (if name_clashes machine_id name hosts
          then err sqlite
          else ok (rename_machine machine_id name libvirt_uri hosts))
      else (elim (unclaimed hosts) [
        | some id ↦ ok (update_host id claim hosts)
        | none ↦
            if not (formats now) || name_clashes machine_id name hosts
            then err sqlite
            else ok (hosts ++ new_host (new_id hosts) machine_id name libvirt_uri now ∷ [])
      ])

  unfoldable pub ensure_tx :
      (machine_id name libvirt_uri : String) (now : ℕ) → Fleet → Result (Fleet × Host)
  ensure_tx machine_id name libvirt_uri now fleet =
      write_host machine_id name libvirt_uri now fleet.hosts >>= λ hosts.
      elim (machine_row machine_id hosts) [
        | none ↦ err sqlite
        | some host ↦
            let slots =
              if nat_beq (length fleet.slots) 0 then new_slot 0 host.id ∷ [] else fleet.slots in
            ok (record fleet { hosts = hosts; slots = slots }, host)
      ]

  unfoldable pub ensure_host :
      Bool → (machine_id name libvirt_uri : String) (now : ℕ) → Fleet → Fleet × Result Host
  ensure_host commits machine_id name libvirt_uri now fleet =
      settle commits fleet (ensure_tx machine_id name libvirt_uri now fleet)
