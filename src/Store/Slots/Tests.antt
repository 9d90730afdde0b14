-- ===== src/Store/Slots/Tests.antt =====
-- The theorems on slots at concrete tables.
use bento.Shared.{ℕ, ◌-◌, ◌/◌, ◌^◌, ◌≡◌, refl, arith, Bool, true, false, List, [], ◌∷◌, none, some}
use bento.Shared.Int.{ℤ, pos}
use bento.Shared.Parse.{last_part, parse_u8, parse_digits, is_digit}
use bento.Types.{Instance, Slot, SlotState, State, DesiredState, Visibility, slot_count}
use bento.Store.Database.{ok, settle}
use bento.Store.Instances.{to_sql_int}
use bento.Store.Slots.{
  Division, slot_row, octet_shift, slot_of_address, highest_slot, run_from, children, put_child,
  put_children, renumbered, insert_row, insert_rows, place_instances, renumber_slots, check_highest,
  set_prefix_tx, set_runner_prefix, occupied_by_others, upsert_slot, claim_slot_tx, claim_slot,
}
use bento.Store.Slots.Owners.{HasOwner, set_runner_prefix-HasOwner}
use bento.Store.Slots.Claims.{IsClaimed, claim_slot-IsClaimed}
use bento.Store.Slots.Moved.{AllPlaced}
use bento.Store.Slots.Kept.{
  IsDivision, SlotRequest, claiming, resetting, after_all, after_all-IsDivision,
  set_runner_prefix-AllPlaced,
}

abbrev guest : Instance
guest = record {
  uuid = "u1";
  name = "web";
  owner_id = pos 1;
  host_id = pos 7;
  image_name = "debian";
  base_checksum = "c";
  state = State.running;
  desired_state = DesiredState.running;
  address = "10.0.3.130";
  mac = "m1";
  vcpu = 1;
  memory_mib = 512;
  disk_gib = 10;
  nested = false;
  ksm = false;
  http_port = 80;
  visibility = Visibility.off;
  created_at = 0;
  last_seen_at = none;
  slot = some 1;
}

abbrev slot_1 : Slot
slot_1 = record {
  slot = 1;
  state = SlotState.active;
  owner_host_id = pos 7;
  ownership_epoch = pos 3;
  source_host_id = none;
  destination_host_id = none;
  operation_id = none;
}

-- A /25 division of which the upper half is owned.
abbrev halves : Division
halves = record { prefix = 25; slots = slot_1 ∷ []; instances = guest ∷ [] }

abbrev any_host : ℤ → Bool
any_host host_id = true

abbrev quarters : ℕ
quarters = 26

halves-IsDivision : IsDivision halves
unfolding slot_row slot_count
halves-IsDivision = record {
  prefix = omega arith;
  ascending = (omega arith, tt);
  exist = (omega arith, tt);
  refer = (λ n in_slot. (slot_1, ground (arith, in_slot)), tt);
}

split_up : (set_runner_prefix true quarters halves).1 ≡ ok (record { runner_prefix = 26 })
unfolding set_runner_prefix set_prefix_tx check_highest highest_slot slot_count renumber_slots
    renumbered children run_from put_children put_child insert_rows to_sql_int insert_row
    place_instances slot_of_address parse_u8 last_part parse_digits is_digit octet_shift slot_row
    settle
split_up = refl

upper_half : slot_row (130 / 2 ^ (32 - halves.prefix)) halves.slots ≡ some slot_1
unfolding slot_row
upper_half = refl

-- The slot cannot be claimed by host 8 while the guest is there; host 7 keeps it.
kept_claim : (claim_slot any_host true 1 (pos 7) halves).1 ≡ ok slot_1
unfolding claim_slot claim_slot_tx slot_count octet_shift occupied_by_others slot_of_address
    parse_u8 last_part parse_digits is_digit to_sql_int upsert_slot slot_row settle
kept_claim = refl

abbrev requests : List SlotRequest
requests = resetting true 26 ∷ claiming true 0 (pos 9) ∷ []

set_runner_prefix-HasOwner_example :
    HasOwner slot_1 (set_runner_prefix true quarters halves).0.slots (130 / 2 ^ (32 - quarters))
set_runner_prefix-HasOwner_example =
    set_runner_prefix-HasOwner true quarters halves 130 (omega arith) split_up upper_half

set_runner_prefix-AllPlaced_example :
    AllPlaced quarters
      (set_runner_prefix true quarters halves).0.slots
      halves.instances
      (set_runner_prefix true quarters halves).0.instances
set_runner_prefix-AllPlaced_example =
    set_runner_prefix-AllPlaced true quarters halves halves-IsDivision (omega arith) split_up

claim_slot-IsClaimed_example :
    IsClaimed halves (claim_slot any_host true 1 (pos 7) halves).0 1 (pos 7) slot_1
claim_slot-IsClaimed_example = claim_slot-IsClaimed any_host true 1 (pos 7) halves kept_claim

after_all-IsDivision_example : IsDivision (after_all any_host requests halves)
after_all-IsDivision_example = after_all-IsDivision any_host requests halves halves-IsDivision
