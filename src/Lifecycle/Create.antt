-- ===== src/Lifecycle/Create.antt =====
-- crates/lifecycle/src/new.rs: the creation of an instance. The images, the number of hosts that take
-- instances and the choice among them are read from other tables of the store, and stand in `Lookups`, as
-- does the minting of a UUID and of its MAC address. A subnet that cannot be read is none.
pub mod Unwind
pub mod Placed
use bento.Shared.{
  ℕ, Bool, true, false, ◌&&◌, ◌||◌, not, if◌then◌else◌, leb, nat_beq, String, List, [], ◌∷◌, Option,
  none, some, ◌==◌, string_eq,
}
use bento.Shared.Int.{ℤ}
use bento.Shared.Result.{Result, ok, err}
use bento.Types.{Instance, State, DesiredState, Visibility, Capacity, Placing, Slot}
use bento.Network.Error.{Result as NetworkResult}
use bento.Network.Prefix.{Ipv4Prefix}
use bento.Network.Subnet.{GuestNetwork, guest_network}
use bento.Store.Database.{Result as StoreResult}
use bento.Store.Instances.{create_instance, delete_instance, set_observed_state}
use bento.Lifecycle.Manager.{
  on_create, on_unwind, on_observed, Error, operation, dependency, no_image_version,
  fleet_image_not_ready, Seed, ProvisionSpec, Manager, World, Step, return, fail, after, ◌>>=◌,
  external, store_call, machine_call, require,
}
use bento.Lifecycle.Actions.{check_nested, host_capacity}
use bento.Lifecycle.Allocate.{allocate_in_owned_slot}

pub record NewRequest : Type 0 where
  pub name : String
  pub owner_id : ℤ
  pub owner_subnet : Option Ipv4Prefix
  pub host_id : ℤ
  pub ssh_keys : List String
  pub image_name : String
  pub vcpu : ℕ
  pub memory_mib : ℕ
  pub disk_gib : ℕ
  pub nested : Bool
  pub disable_ksm : Bool
  pub http_port : ℕ

-- The other reads of a creation. A text is written for every address.
pub record Lookups : Type 0 where
  pub current_checksum : String → Option (Option String)
  pub hosts_missing_image : (image_name checksum : String) → Option (List String)
  pub is_oci : (checksum : String) → Option Bool
  pub placeable_hosts : Option ℕ
  pub choose_host : Placing → StoreResult ℤ
  pub arch : String
  pub runner_prefix : ℕ
  pub slots : List Slot
  pub first_dns : ℕ
  pub more_dns : List ℕ
  pub default_dns : List ℕ
  pub new_uuid : String
  pub mac : (uuid : String) → String
  pub write_address : ℕ → String

-- What the checks of a request settle.
pub record Plan : Type 0 where
  pub instance : Instance
  pub capacity : Capacity
  pub subnet : Ipv4Prefix
  pub address : ℕ
  pub is_oci : Bool

-- A current checksum that is not empty.
unfoldable pub image_checksum : Option (Option String) → Result Error String
image_checksum none = err operation
image_checksum (some none) = err no_image_version
image_checksum (some (some checksum)) = if checksum == "" then err no_image_version else ok checksum

unfoldable pub check_ready : Option (List String) → Result Error (Unit {0})
check_ready none = err dependency
check_ready (some []) = ok tt
check_ready (some (name ∷ names)) = err fleet_image_not_ready

unfoldable pub or_operation : {A : Type 0} → Option A → Result Error A
or_operation none = err operation
or_operation (some a) = ok a

unfoldable pub place : Lookups → NewRequest → Result Error ℤ
place lookups request = elim lookups.placeable_hosts [
  | none ↦ err dependency
  | some placeable ↦
      if leb placeable 1
      then ok request.host_id
      else external (
          lookups.choose_host (record {
            vcpu = request.vcpu;
            memory_mib = request.memory_mib;
            disk_gib = request.disk_gib;
            arch = some lookups.arch;
          }))
]

unfoldable pub new_instance :
    Lookups → NewRequest → (checksum : String) (host_id : ℤ) (address slot now : ℕ) → Instance
new_instance lookups request checksum host_id address slot now = record {
  uuid = lookups.new_uuid;
  name = request.name;
  owner_id = request.owner_id;
  host_id = host_id;
  image_name = request.image_name;
  base_checksum = checksum;
  state = State.stopped;
  desired_state = DesiredState.running;
  address = lookups.write_address address;
  mac = lookups.mac lookups.new_uuid;
  vcpu = request.vcpu;
  memory_mib = request.memory_mib;
  disk_gib = request.disk_gib;
  nested = request.nested;
  ksm = not request.disable_ksm;
  http_port = request.http_port;
  visibility = Visibility.off;
  created_at = now;
  last_seen_at = none;
  slot = some slot;
}

abbrev pub guest_user : String
guest_user = "bento"

-- `dns[0]`, of a list that has the manager's first resolver.
unfoldable pub first_of : List ℕ → ℕ
first_of [] = 0
first_of (a ∷ more) = a

unfoldable pub seed : Instance → NewRequest → GuestNetwork ℕ → (install_guest_agent : Bool) → Seed
seed i request guest install_guest_agent = record {
  instance_id = i.uuid;
  hostname = request.name;
  user_name = guest_user;
  authorized_keys = request.ssh_keys;
  mac = i.mac;
  address = guest.address;
  gateway = guest.gateway_address;
  dns = first_of guest.dns;
  install_guest_agent = install_guest_agent;
}

module _ {M : Type 0} (m : Manager M) (lookups : Lookups) where
  -- A value that needs no machine and no writing.
  unfoldable pub settled : {A : Type 0} → Result Error A → Step M A
  settled r w = (w, r)

  unfoldable pub check_request : NewRequest → Step M (Unit {0})
  check_request request w =
      if (request.name == "") || (request.image_name == "")
      then (w, err operation)
      else if nat_beq request.vcpu 0 || nat_beq request.memory_mib 0 || nat_beq request.disk_gib 0
      then (w, err operation)
      else if request.nested
      then check_nested m w
      else (w, ok tt)

  unfoldable pub allocate_step : ℤ → Ipv4Prefix → Step M (ℕ × ℕ)
  allocate_step host_id subnet w =
      settled
        (allocate_in_owned_slot
          (record {
            prefix = lookups.runner_prefix;
            slots = lookups.slots;
            instances = w.db.instances;
          })
          host_id subnet)
        w

  -- Everything before the row is written.
  unfoldable pub plan_new : NewRequest → (now : ℕ) → Step M Plan
  plan_new request now = check_request request >>= λ _.
      settled (image_checksum (lookups.current_checksum request.image_name)) >>= λ checksum.
      settled (check_ready (lookups.hosts_missing_image request.image_name checksum)) >>= λ _.
      settled (or_operation (lookups.is_oci checksum)) >>= λ is_oci.
      settled (or_operation request.owner_subnet) >>= λ subnet.
      settled (place lookups request) >>= λ host_id.
      allocate_step host_id subnet >>= λ (address, slot). host_capacity m host_id >>= λ capacity.
      return (record {
        instance = new_instance lookups request checksum host_id address slot now;
        capacity = capacity;
        subnet = subnet;
        address = address;
        is_oci = is_oci;
      })

  -- The row of an instance that could not be built goes; whether that succeeds shows in the message only.
  unfoldable pub unwind_new : {A : Type 0} → Instance → (now : ℕ) → Step M A
  unwind_new i now w =
      (record w { db = (delete_instance (m.backend on_unwind) i.uuid now w.db).0 }, err operation)

  -- What becomes of the answer of the machine.
  unfoldable pub record_built : Instance → (now : ℕ) → Option State → Step M Instance
  record_built i now none w = unwind_new i now w
  record_built i now (some observed) w = (
    record w { db = (set_observed_state (m.backend on_observed) i.uuid observed w.db).0 },
    ok (record i { state = observed }),
  )

  -- The machine that will run the instance builds it, on the network of its owner.
  unfoldable pub build_on :
      NewRequest → (now : ℕ) → Plan → GuestNetwork ℕ → (network : Option String) → Step M Instance
  build_on request now plan guest none = unwind_new plan.instance now
  build_on request now plan guest (some network) =
      machine_call (
        m.machines.provision (record {
          host_id = plan.instance.host_id;
          instance = plan.instance;
          network = network;
          seed = seed plan.instance request guest (not plan.is_oci);
          with_seed_iso = true;
          start = true;
        }))
      >>= λ answer. record_built plan.instance now answer

  unfoldable pub build_for :
      NewRequest → (now : ℕ) → Plan → NetworkResult (GuestNetwork ℕ) → Step M Instance
  build_for request now plan (NetworkResult.err _) = unwind_new plan.instance now
  build_for request now plan (NetworkResult.ok guest) =
      build_on request now plan guest (m.network_of request.owner_id)

  unfoldable pub build : NewRequest → (now : ℕ) → Plan → Step M Instance
  build request now plan = build_for request now plan (
      guest_network lookups.default_dns plan.subnet plan.address
        (some (lookups.first_dns ∷ lookups.more_dns)))

  unfoldable pub create :
      NewRequest → (minted_at checked_at created_at unwound_at : ℕ) → Step M Instance
  create request minted_at checked_at created_at unwound_at = plan_new request minted_at >>= λ plan.
      store_call (
        create_instance (m.backend on_create) plan.instance m.cooldown plan.capacity checked_at
          created_at)
      >>= λ _. build request unwound_at plan
