-- ===== src/Store/Hosts/Tests.antt =====
-- The theorems on hosts and placement at concrete tables.
use Prim.Native.Nat.{compare}
use mathlib.Core.List.{Memᴰ}
use bento.Shared.{ℕ, ◌*◌, ◌/◌, ◌≡◌, refl, Bool, true, String, List, [], ◌∷◌, none, some, select}
use bento.Shared.Int.{ℤ, pos}
use bento.Types.{Host, Placing, Placement, Slot, SlotState}
use bento.Store.Database.{ok, err, settle, Rejection, no_placement}
use bento.Store.Instances.{to_sql_int, saturating_add, slot_to_sql}
use bento.Store.Observation.{HostHealth, HostSeen, Observation, placeable}
use bento.Store.Hosts.{
  Fleet, host_row, observation_row, judge, learn_machine, contact_time, observe_tx, observe_host,
}
use bento.Store.Hosts.Rows.{IsMachine}
use bento.Store.Hosts.Identity.{HostRequest, observing, ensuring, after_all, after_all-IsMachine}
use bento.Store.Hosts.Placing.{
  Float, rejected, active_slots, reserved, unwrap_or_zero, check_arch, check_disk, takes_new,
  overcommitted_memory_mib, weigh, weigh_host, better, weigh_all, choose_host,
}
use bento.Store.Hosts.Placing.Choice.{choose_host-no_placement}

abbrev machine_a : String
machine_a = "ebb8"

abbrev konata : Host
konata = record {
  id = pos 1;
  machine_id = some machine_a;
  name = "konata";
  libvirt_uri = "qemu:///system";
  endpoint = none;
  underlay = none;
  enabled = true;
  placement = Placement.active;
  created_at = 0;
}

abbrev well : Observation
well = record {
  health = HostHealth.ok;
  last_contact_at = some 5;
  accepted_epoch = pos 1;
  arch = some "aarch64";
  cpu_count = some 8;
  memory_total_mib = some 8192;
  storage_total_gib = some 200;
  storage_available_gib = some 150;
  hypervisor_version = none;
  last_error = none;
}

abbrev slot_0 : Slot
slot_0 = record {
  slot = 0;
  state = SlotState.active;
  owner_host_id = pos 1;
  ownership_epoch = pos 0;
  source_host_id = none;
  destination_host_id = none;
  operation_id = none;
}

abbrev one_host : Fleet
one_host = record {
  hosts = konata ∷ [];
  observations = (pos 1, well) ∷ [];
  slots = slot_0 ∷ [];
  instances = [];
}

-- A machine of another identity answers.
abbrev stranger : HostSeen
stranger = record {
  machine_id = some "167e";
  accepted_epoch = pos 1;
  arch = none;
  cpu_count = none;
  memory_total_mib = none;
  storage_total_gib = none;
  storage_available_gib = none;
  hypervisor_version = none;
  error = none;
}

abbrev writable : ℕ → Bool
writable time = true

abbrev next_id : List Host → ℤ
next_id hosts = pos 2

-- Numbers in place of floats, in thousandths where they are quotients.
abbrev thousandths : Float ℕ
thousandths = record {
  from_u64 = λ n. n;
  to_u64 = λ n. n;
  times = λ a b. a * b;
  divide = λ a b. a * 1000 / b;
  partial_cmp = λ a b. some (compare a b);
}

abbrev small : Placing
small = record { vcpu = 2; memory_mib = 1024; disk_gib = 10; arch = some "aarch64" }

abbrev huge : Placing
huge = record { vcpu = 2; memory_mib = 16384; disk_gib = 10; arch = some "aarch64" }

konata-IsMachine : IsMachine (pos 1) machine_a one_host.hosts
unfolding host_row
konata-IsMachine = (konata, refl, refl)

mismatch : (observe_host writable true (pos 1) stranger 9 one_host).1 ≡ ok HostHealth.mismatched
unfolding observe_host observe_tx host_row judge learn_machine contact_time slot_to_sql settle
mismatch = refl

abbrev reasons : List (String × Rejection)
reasons = ("konata", Rejection.memory_short 8192 8192 16384) ∷ []

refused : choose_host thousandths one_host huge 1 ≡ err (no_placement reasons)
unfolding choose_host weigh_all weigh_host weigh takes_new observation_row placeable active_slots
    check_arch check_disk reserved to_sql_int saturating_add unwrap_or_zero overcommitted_memory_mib
    better
refused = refl

listed : Memᴰ konata (select takes_new one_host.hosts)
unfolding takes_new
listed = Memᴰ.head refl

abbrev history : List HostRequest
history =
    observing true (pos 1) stranger 9 ∷ ensuring true "167e" "tsukasa" "qemu:///system" 10 ∷ []

after_all-IsMachine_example :
    IsMachine (pos 1) machine_a (after_all writable next_id history one_host).hosts
after_all-IsMachine_example =
    after_all-IsMachine writable next_id history one_host (pos 1) machine_a konata-IsMachine

choose_host-no_placement_example :
    (reason : Rejection) × (weigh_host thousandths one_host konata huge 1 ≡ ok (rejected reason))
    × Memᴰ (konata.name, reason) reasons
choose_host-no_placement_example =
    choose_host-no_placement thousandths one_host huge 1 refused konata listed
