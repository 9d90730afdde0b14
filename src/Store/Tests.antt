-- ===== src/Store/Tests.antt =====
-- The theorems on the data layer at concrete tables.
use bento.Shared.{
  ℕ, ◌+◌, ◌≤◌, ◌≡◌, ◌≢◌, ◌⊎◌, ◌↔◌, inl, inr, refl, arith, true, false, ◌&&◌, ◌||◌, not,
  if◌then◌else◌, String, [], ◌∷◌, Option, none, some, ◌==◌, ==_iff, string_eq, nat_beq, Bool-cases,
  subst,
}
use bento.Shared.Int.{pos, int_eq, ltb_ℤ}
use bento.Types.{
  Instance, State, DesiredState, Visibility, limit, Capacity, exceeded_by, ReleasedName,
}
use bento.Store.Database.{Database, Backend, ok, err, settle, with_tx, lease_held}
use bento.Store.Names.{
  is_live, released_row, check_release, claim_name_tx, put_release, release_name_tx,
}
use bento.Store.Names.Cooldown.{IsFree, claim_name_tx_iff}
use bento.Store.Instances.{
  to_sql_int, saturating_add, sum_on, check_resource, check_capacity_tx, get_instance_tx, collides,
  slot_to_sql, insert_instance, create_tx, create_instance, delete_row, delete_tx, delete_instance,
}
use bento.Store.Instances.Kept.{IsKeyed, create, perform}
use bento.Store.Instances.Requests.{perform-IsKeyed}
use bento.Store.Instances.Room.{provisioned, Within, create_instance-Within}
use bento.Store.Instances.Handover.{delete_instance-claim}
use bento.Shared.Rows.{row, put}
use bento.Store.Dispatch.{
  saturating_million, lowest_generation, raise_generation, next_dispatch_generation,
}
use bento.Store.Dispatch.Rising.{dispatch_all, next_dispatch_generation-rises}
use bento.Store.Lease.{LeaseRow, Clock, held_by_other, take_lease, acquire_lease, release_lease}
use bento.Store.Lease.Epochs.{ReadsBack, acquire_lease-excludes}
use bento.Store.Lease.History.{releasing, after, after_all, acquire_lease-fences}

apart : (a b : String) → (a == b) ≡ false → a ≢ b
apart a b differ e = ground (arith, ==_iff a b, differ, e)

abbrev web_uuid : String
web_uuid = "u1"

abbrev working : Backend
working = record {
  commits = true;
  formats = λ _. true;
  unix_epoch = 0;
  instance_references = λ _. true;
  user_exists = λ _. true;
}

abbrev web : Instance
web = record {
  uuid = "u1";
  name = "web";
  owner_id = pos 1;
  host_id = pos 1;
  image_name = "debian";
  base_checksum = "c";
  state = State.stopped;
  desired_state = DesiredState.running;
  address = "10.20.3.2";
  mac = "m1";
  vcpu = 2;
  memory_mib = 2048;
  disk_gib = 20;
  nested = false;
  ksm = true;
  http_port = 80;
  visibility = Visibility.off;
  created_at = 5;
  last_seen_at = none;
  slot = some 0;
}

abbrev api : Instance
api = record web { uuid = "u2"; name = "api"; address = "10.20.3.3"; mac = "m2" }

abbrev old : ReleasedName
old = record { name = "old"; previous_owner_id = pos 1; released_at = 10 }

abbrev tables : Database
tables = record {
  instances = web ∷ [];
  released_names = old ∷ [];
  shares = record { instance_uuid = "u1"; user_id = pos 2; created_at = 6 } ∷ [];
}

abbrev room : Capacity
room = record { memory_mib = limit 8192; disk_gib = limit 100 }

tables-IsKeyed : IsKeyed tables.instances
tables-IsKeyed = record {
  uuids = (tt, tt);
  names = (tt, tt);
  addresses = (tt, tt);
  macs = (tt, tt);
}

perform-IsKeyed_example : IsKeyed (perform working (create api 100 room 50 50) tables).instances
perform-IsKeyed_example = perform-IsKeyed working (create api 100 room 50 50) tables tables-IsKeyed

create_instance-Within_example :
    Within room.memory_mib (
      provisioned
        (λ i. i.memory_mib)
        (pos 1)
        (create_instance working api 100 room 50 50 tables).0.instances)
    × Within room.disk_gib (
        provisioned
          (λ i. i.disk_gib)
          (pos 1)
          (create_instance working api 100 room 50 50 tables).0.instances)
unfolding create_instance create_tx with_tx settle claim_name_tx is_live released_row check_release
    check_capacity_tx to_sql_int sum_on check_resource exceeded_by saturating_add insert_instance
    slot_to_sql collides
create_instance-Within_example =
    create_instance-Within working api 100 room 50 50 tables (apart "u1" "" refl, tt) refl

delete_instance-claim_example :
    (claim_name_tx "web" (pos 2) 100 60 (delete_instance working "u1" 50 tables).0 ≡ ok tt)
    ↔ ((pos 1 ≡ pos 2) ⊎ (50 + 100 ≤ 60))
unfolding delete_instance delete_tx delete_row release_name_tx put_release with_tx settle
    get_instance_tx
delete_instance-claim_example =
    delete_instance-claim working "u1" 50 tables {i = web} (pos 2) 100 60 (tt, tt) refl
      (omega arith)

claim_name_tx_iff_example : (claim_name_tx "old" (pos 2) 100 60 tables ≡ ok tt) ↔ (
    (is_live "old" tables.instances ≡ false)
    × IsFree (pos 2) 100 60 (released_row "old" tables.released_names))
unfolding released_row
claim_name_tx_iff_example = claim_name_tx_iff "old" (pos 2) 100 60 tables (omega arith)

-- A clock for times below 5, in figures.
abbrev read_figure : String → Option ℕ
read_figure text =
    if text == "1"
    then some 1
    else if text == "2"
    then some 2
    else if text == "3"
    then some 3
    else if text == "4"
    then some 4
    else none

abbrev write_figure : ℕ → Option String
write_figure t =
    if nat_beq t 1
    then some "1"
    else if nat_beq t 2
    then some "2"
    else if nat_beq t 3
    then some "3"
    else if nat_beq t 4
    then some "4"
    else none

abbrev figures : Clock
figures = record {
  format_time = write_figure;
  parse_time = read_figure;
  text_after = λ a b. (a == "4") || ((a == "3") && not (b == "3"));
}

figures-ReadsBack : ReadsBack figures
figures-ReadsBack = record { parse-format = reads }
  where
    reads : (t : ℕ) (text : String) → write_figure t ≡ some text → read_figure text ≡ some t
    reads t text e = elim (Bool-cases (nat_beq t 1)) [
      | inl one ↦ back "1" (ground (arith, e, one)) (ground (arith, one))
      | inr n1 ↦ elim (Bool-cases (nat_beq t 2)) [
        | inl two ↦ back "2" (ground (arith, e, two)) (ground (arith, two))
        | inr n2 ↦ elim (Bool-cases (nat_beq t 3)) [
          | inl three ↦ back "3" (ground (arith, e, three)) (ground (arith, three))
          | inr n3 ↦ elim (Bool-cases (nat_beq t 4)) [
            | inl four ↦ back "4" (ground (arith, e, four)) (ground (arith, four))
            | inr n4 ↦ absurd (ground (arith, e, n1, n2, n3, n4))
          ]
        ]
      ]
    ]
      where
        back : (s : String) → s ≡ text → read_figure s ≡ some t → read_figure text ≡ some t
        back s same h = subst (λ k. read_figure k ≡ some t) same h

abbrev free : LeaseRow
free = record { holder_id = none; epoch = pos 4; expires_at = none }

abbrev held : LeaseRow
held = record { holder_id = some "c1"; epoch = pos 5; expires_at = some "3" }

acquire_lease-excludes_example :
    acquire_lease figures true "c2" 2 2 (acquire_lease figures true "c1" 2 1 free).0
    ≡ ((acquire_lease figures true "c1" 2 1 free).0, err (lease_held "c1" 3))
unfolding acquire_lease settle held_by_other take_lease
acquire_lease-excludes_example =
    acquire_lease-excludes figures figures-ReadsBack true true "c1" 2 1 free
      {lease = record { holder_id = "c1"; epoch = pos 5; expires_at = 3 }} refl "c2" 2 2
      (apart "c2" "c1" refl) (omega arith)

acquire_lease-fences_example : ltb_ℤ (pos 5) (pos 6) ≡ true
unfolding acquire_lease settle held_by_other take_lease after_all after release_lease
acquire_lease-fences_example =
    acquire_lease-fences figures true true "c1" "c2" 1 1 1 2 free (releasing true "c1" ∷ [])
      {first = record { holder_id = "c1"; epoch = pos 5; expires_at = 2 }}
      {second = record { holder_id = "c2"; epoch = pos 6; expires_at = 3 }} refl refl

next_dispatch_generation-rises_example : ltb_ℤ (pos 2000001) (pos 2000003) ≡ true
unfolding next_dispatch_generation raise_generation lowest_generation saturating_million
    dispatch_all settle row put
next_dispatch_generation-rises_example =
    next_dispatch_generation-rises true true "u1" (pos 2) (pos 1) []
      (record { commits = true; object_id = "u1"; epoch = pos 1 } ∷ []) {first = pos 2000001}
      {second = pos 2000003} refl refl
