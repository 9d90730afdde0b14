-- ===== src/Lifecycle/Tests.antt =====
-- The theorems on the lifecycle at a concrete world.
use bento.Shared.{
  subst, first_free, arith, ℕ, ◌+◌, ◌≡◌, ◌⊎◌, refl, true, false, String, [], ◌∷◌, none, some,
}
use bento.Shared.Int.{pos}
use bento.Shared.Result.{ok, err}
use bento.Shared.Parse.{
  parse_ipv4, parse_parts, join_octets, parse_octet, parse_digits, is_digit, split,
}
use bento.Types.{exceeded_by, Slot, SlotState, Instance, State, DesiredState, Visibility, limit}
use bento.Store.Database.{Backend, Result as StoreResult, settle, with_tx}
use bento.Store.Instances.{
  create_instance, create_tx, check_capacity_tx, to_sql_int, sum_on, check_resource, saturating_add,
  insert_instance, slot_to_sql, collides, get_instance_tx, update_rows, update_instance,
  set_observed_state, delete_row, delete_tx, delete_instance,
}
use bento.Store.Names.{
  claim_name_tx, is_live, released_row, check_release, put_release, release_name_tx,
}
use bento.Network.Prefix.{IsPrefixValue, Ipv4Prefix, covers, and_mask, masked}
use bento.Network.Slot.{new, require_slash_24, assignable, check_slot, count, shift}
use bento.Network.Subnet.{guest_network, gateway, allocate_address, pick_address, free_host}
use bento.Store.Slots.{Division}
use bento.Lifecycle.Allocate.{
  used_addresses, is_owned, insert_number, sort, owned_slots, take_answer, allocate_first,
  allocate_from, allocate_in_owned_slot,
}
use bento.Lifecycle.Allocate.Owned.{IsOwned, IsFirstFree, allocate_in_owned_slot-IsOwned}
use bento.Lifecycle.Manager.{
  operation, StopResult, Removal, DomainState, Machines, Manager, World, after, external,
  store_read, store_call, machine_call, require,
}
use bento.Lifecycle.Create.{
  NewRequest, Lookups, create, plan_new, settled, check_request, image_checksum, check_ready,
  or_operation, place, allocate_step, new_instance, build, build_for, build_on, record_built,
  unwind_new, seed,
}
use bento.Store.Instances.{rename_instance, rename_tx}
use bento.Store.Instances.Kept.{IsKeyed}
use bento.Lifecycle.Rename.{
  domain_gone, Times, unwind_rename, or_unwind, write_name, define_old, defined, define_new,
  is_gone, replace_domain, rename_here, rename_stopped, rename_found, rename,
}
use bento.Lifecycle.Rename.Undone.{rename-Restores}
use bento.Lifecycle.Reconcile.{DomainInfo, ReconcileReport, is_empty, reconcile}
use bento.Lifecycle.Reconcile.Report.{HasRow, HasDomain, reconcile-is_empty}
use bento.Shared.{◌↔◌, List, string_eq}
use bento.Lifecycle.Create.Placed.{InOwnSlot, create-InOwnSlot}
use bento.Lifecycle.Create.Unwind.{create-Restores}
use bento.Lifecycle.Actions.{
  check_nested, host_capacity, ResizeRequest, instance_of, hyp_for, stop, undefined, remove,
  resize_instance,
}
use bento.Lifecycle.Actions.Resize.{IsOrdered, resize_instance-IsOrdered}
use bento.Lifecycle.Actions.Power.{WantsStopped, IsRemoval, stop-WantsStopped, remove-IsRemoval}

abbrev web_uuid : String
web_uuid = "u1"

abbrev web : Instance
web = record {
  uuid = "u1";
  name = "web";
  owner_id = pos 1;
  host_id = pos 1;
  image_name = "debian";
  base_checksum = "c";
  state = State.stopped;
  desired_state = DesiredState.running;
  address = "10.20.3.2";
  mac = "m1";
  vcpu = 2;
  memory_mib = 2048;
  disk_gib = 20;
  nested = false;
  ksm = true;
  http_port = 80;
  visibility = Visibility.off;
  created_at = 5;
  last_seen_at = none;
  slot = some 0;
}

abbrev sound : Backend
sound = record {
  commits = true;
  formats = λ _. true;
  unix_epoch = 0;
  instance_references = λ _. true;
  user_exists = λ _. true;
}

-- Machines that count the calls on them, and obey.
abbrev obedient : Machines ℕ
obedient = record {
  reaches = λ calls host_id. true;
  nested = λ calls. true;
  capacity = λ calls host_id. some (record { memory_mib = limit 8192; disk_gib = limit 100 });
  start = λ host_id name calls. (calls + 1, true);
  stop = λ host_id name calls. (calls + 1, some StopResult.graceful);
  reboot = λ host_id name calls. (calls + 1, true);
  remove = λ host_id name calls. (calls + 1, Removal.removed);
  domain_state = λ host_id name calls. DomainState.in_state State.stopped;
  provision = λ spec calls. (calls + 1, some State.running);
  deprovision = λ i calls. calls + 1;
  grow_disk = λ i disk_gib calls. (calls + 1, true);
  renders = λ i calls. true;
  define = λ i calls. (calls + 1, true);
  redefine = λ i network previous_name calls. (calls + 1, true);
}

abbrev home : Manager ℕ
home = record {
  host_id = pos 1;
  has_definer = true;
  cooldown = 0;
  backend = λ call. sound;
  machines = obedient;
  network_of = λ owner_id. some "bento-3";
}

abbrev one_instance : World ℕ
one_instance = record {
  db = record { instances = web ∷ []; released_names = []; shares = [] };
  machines = 0;
}

abbrev larger : ResizeRequest
larger = record { uuid = "u1"; vcpu = 2; memory_mib = 4096; disk_gib = 30; nested = false }

removed : (remove home web_uuid 9 one_instance).1 ≡ ok tt
unfolding remove instance_of hyp_for undefined store_read store_call machine_call require external
    after get_instance_tx delete_instance delete_tx delete_row release_name_tx put_release with_tx
    settle
removed = refl

stop-WantsStopped_example :
    ((stop home web_uuid one_instance).0.machines ≡ one_instance.machines)
    ⊎ WantsStopped web_uuid (stop home web_uuid one_instance).0.db
stop-WantsStopped_example = stop-WantsStopped home web_uuid one_instance

remove-IsRemoval_example :
    IsRemoval home web_uuid 9 one_instance (remove home web_uuid 9 one_instance).0
remove-IsRemoval_example = remove-IsRemoval home web_uuid 9 one_instance

resize_instance-IsOrdered_example :
    IsOrdered home larger one_instance (resize_instance home larger one_instance).0
resize_instance-IsOrdered_example = resize_instance-IsOrdered home larger one_instance

abbrev home_subnet : Ipv4Prefix
home_subnet = record { addr = 169083648; bits = 24 }

abbrev slot_0 : Slot
slot_0 = record {
  slot = 0;
  state = SlotState.active;
  owner_host_id = pos 1;
  ownership_epoch = pos 0;
  source_host_id = none;
  destination_host_id = none;
  operation_id = none;
}

abbrev whole : Division
whole = record { prefix = 24; slots = slot_0 ∷ []; instances = web ∷ [] }

allocated : allocate_in_owned_slot whole (pos 1) home_subnet ≡ ok (169083651, 0)
unfolding allocate_in_owned_slot new allocate_from allocate_first take_answer owned_slots sort
    insert_number is_owned used_addresses parse_ipv4 parse_parts join_octets parse_octet
    parse_digits is_digit split covers and_mask allocate_address pick_address free_host first_free
    require_slash_24 assignable check_slot count shift masked
allocated = refl

allocate_in_owned_slot-IsOwned_example :
    IsOwned (pos 1) whole.slots 0
    × IsFirstFree whole.instances home_subnet (record { bits = whole.prefix }) 0 169083651
allocate_in_owned_slot-IsOwned_example =
    allocate_in_owned_slot-IsOwned whole (pos 1) home_subnet
      (record { addr_fits = omega arith; bits_fit = omega arith }) allocated

abbrev lookups : Lookups
lookups = record {
  current_checksum = λ image_name. some (some "c2");
  hosts_missing_image = λ image_name checksum. some [];
  is_oci = λ checksum. some false;
  placeable_hosts = some 1;
  choose_host = λ want. StoreResult.ok (pos 1);
  arch = "x86_64";
  runner_prefix = 24;
  slots = slot_0 ∷ [];
  first_dns = 1;
  more_dns = [];
  default_dns = 2 ∷ [];
  new_uuid = "u2";
  mac = λ uuid. "m2";
  write_address = λ a. "10.20.3.3";
}

abbrev wanted : NewRequest
wanted = record {
  name = "db";
  owner_id = pos 1;
  owner_subnet = some home_subnet;
  host_id = pos 1;
  ssh_keys = [];
  image_name = "debian";
  vcpu = 1;
  memory_mib = 1024;
  disk_gib = 10;
  nested = false;
  disable_ksm = false;
  http_port = 80;
}

-- The manager does not find the network of the owner.
abbrev without_network : Manager ℕ
without_network = record home { network_of = λ owner_id. none }

abbrev built : Instance
built = record (new_instance lookups wanted "c2" (pos 1) 169083651 0 1) { state = State.running }

created : (create home lookups wanted 1 2 3 4 one_instance).1 ≡ ok built
unfolding create plan_new settled check_request check_nested image_checksum check_ready or_operation
    place allocate_step host_capacity new_instance store_call after external create_instance
    create_tx claim_name_tx is_live released_row check_release check_capacity_tx to_sql_int sum_on
    check_resource saturating_add exceeded_by insert_instance slot_to_sql collides build build_for
    build_on record_built unwind_new guest_network gateway set_observed_state update_instance
    update_rows seed machine_call with_tx settle delete_instance delete_tx get_instance_tx
    delete_row release_name_tx put_release allocate_in_owned_slot new allocate_from allocate_first
    take_answer owned_slots sort insert_number is_owned used_addresses parse_ipv4 parse_parts
    join_octets parse_octet parse_digits is_digit split covers and_mask allocate_address
    pick_address free_host first_free require_slash_24 assignable check_slot count shift masked
created = refl

not_created : (create without_network lookups wanted 1 2 3 4 one_instance).1 ≡ err operation
unfolding create plan_new settled check_request check_nested image_checksum check_ready or_operation
    place allocate_step host_capacity new_instance store_call after external create_instance
    create_tx claim_name_tx is_live released_row check_release check_capacity_tx to_sql_int sum_on
    check_resource saturating_add exceeded_by insert_instance slot_to_sql collides build build_for
    build_on record_built unwind_new guest_network gateway set_observed_state update_instance
    update_rows seed machine_call with_tx settle delete_instance delete_tx get_instance_tx
    delete_row release_name_tx put_release allocate_in_owned_slot new allocate_from allocate_first
    take_answer owned_slots sort insert_number is_owned used_addresses parse_ipv4 parse_parts
    join_octets parse_octet parse_digits is_digit split covers and_mask allocate_address
    pick_address free_host first_free require_slash_24 assignable check_slot count shift masked
not_created = refl

subnet_in_range : (subnet : Ipv4Prefix) → wanted.owner_subnet ≡ some subnet → IsPrefixValue subnet
subnet_in_range subnet e =
    let same : home_subnet ≡ subnet = ground (arith, e) in
    subst IsPrefixValue same (record { addr_fits = omega arith; bits_fit = omega arith })

create-InOwnSlot_example : InOwnSlot home lookups wanted one_instance.db.instances built
create-InOwnSlot_example =
    create-InOwnSlot home lookups wanted 1 2 3 4 one_instance subnet_in_range created

create-Restores_example :
    (create without_network lookups wanted 1 2 3 4 one_instance).0.db.instances
    ≡ one_instance.db.instances
create-Restores_example =
    create-Restores without_network lookups wanted 1 2 3 4 one_instance operation refl refl
      not_created

-- A machine whose hypervisor does not define the domain under its new name.
abbrev stubborn : Machines ℕ
stubborn = record obedient { define = λ i calls. (calls + 1, false) }

abbrev at_home : Manager ℕ
at_home = record home { machines = stubborn }

abbrev times : Times
times = record { claimed_at = 1; released_at = 2; unwound_at = 3; dropped_at = 4 }

one_instance-IsKeyed : IsKeyed one_instance.db.instances
one_instance-IsKeyed = record {
  uuids = (tt, tt);
  names = (tt, tt);
  addresses = (tt, tt);
  macs = (tt, tt);
}

rename_fails : (rename at_home times web_uuid "site" one_instance).1 ≡ err operation
unfolding rename instance_of store_read external get_instance_tx rename_found hyp_for after
    domain_gone rename_stopped rename_here write_name store_call rename_instance rename_tx
    claim_name_tx is_live released_row check_release release_name_tx put_release update_rows with_tx
    settle or_unwind replace_domain machine_call is_gone define_new defined define_old unwind_rename
rename_fails = refl

rename-Restores_example :
    (rename at_home times web_uuid "site" one_instance).0.db.instances ≡ one_instance.db.instances
rename-Restores_example =
    rename-Restores at_home times web_uuid "site" one_instance operation one_instance-IsKeyed refl
      refl rename_fails

-- The domain of the instance, and one that no row knows.
abbrev two_domains : List DomainInfo
two_domains =
    record { name = "web"; uuid = "u1"; state = State.stopped }
    ∷ record { name = "stray"; uuid = "u9"; state = State.running }
    ∷ []

reconcile-is_empty_example :
    ((domains : List DomainInfo)
      → some two_domains ≡ some domains
      → true ≡ true
      → (r : ReconcileReport) × (reconcile home (λ calls. some two_domains) true one_instance
          ≡ (one_instance, ok r))
        × ((is_empty r ≡ true) ↔ (
            (uuid : String)
            → HasDomain domains uuid ↔ HasRow one_instance.db.instances home.host_id uuid)))
    × ((some two_domains ≡ none) ⊎ (true ≡ false)
        → reconcile home (λ calls. some two_domains) true one_instance
          ≡ (one_instance, err operation))
reconcile-is_empty_example = reconcile-is_empty home (λ calls. some two_domains) true one_instance
