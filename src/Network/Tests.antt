-- ===== src/Network/Tests.antt =====
-- The theorems on the network code at concrete inputs.
use bento.Shared.{
  ℕ, ◌≡◌, ◌↔◌, refl, sym, ◌∙◌, arith, true, ◌&&◌, not, List, [], ◌∷◌, some, ◌==◌, ==_iff, contains,
  nat_eq, select, first_free,
}
use bento.Shared.Int.{pos}
use bento.Network.Error.{Error, ok}
use bento.Network.Prefix.{Ipv4Prefix, IsPrefixValue, and_mask, masked, covers}
use bento.Network.Slot.{
  Slots, new, count, shift, check_slot, require_slash_24, slot_prefix, slot_of, assignable,
}
use bento.Network.Slot.Ranges.{IsSlots, slot_of-slot_prefix}
use bento.Network.Subnet.{Plan, free_host, pick_address, allocate_address}
use bento.Network.Subnet.Numbering.{IsPlan}
use bento.Network.Subnet.Addresses.{IsLowestAddress, allocate_address-IsLowestAddress}
use bento.Network.Routes.{
  Route, route_eq, prefix_beq, Applier, IsRouteTable, Converged, unique_after, unique,
  check_desired, remove_stale, add_missing, converge,
}
use bento.Network.Routes.Converge.{IsFunctional, converge-shows}
use bento.Network.Machine.{
  MachineNetwork, slot_routes, user_routes, routes, check_users, check_remotes, check_range,
  check_frontends, check,
}
use bento.Network.Machine.Reach.{HaveValues}
use bento.Network.Machine.Checked.{IsDirect, check-IsDirect}

-- 10.20.3.0/24 in 10.20.0.0/16, divided into four slots.
abbrev quarters : Slots
quarters = record { bits = 26 }

abbrev home : Ipv4Prefix
home = record { addr = 169083648; bits = 24 }

abbrev third_quarter : Ipv4Prefix
third_quarter = record { addr = 169083776; bits = 26 }

abbrev plan : Plan
plan = record { prefix = record { addr = 169082880; bits = 16 } }

quarters-IsSlots : IsSlots quarters
quarters-IsSlots = omega arith

home-IsPrefixValue : IsPrefixValue home
home-IsPrefixValue = record { addr_fits = omega arith; bits_fit = omega arith }

plan-IsPlan : IsPlan plan
plan-IsPlan = record { wide = omega arith; addr_fits = omega arith; no_host_bits = refl }

slot_of-slot_prefix_example :
    (slot_of quarters home 169083778 ≡ ok 2) ↔ (covers third_quarter 169083778 ≡ true)
unfolding slot_prefix require_slash_24 check_slot count shift masked and_mask
slot_of-slot_prefix_example =
    slot_of-slot_prefix quarters home 2 169083778 {p = third_quarter} quarters-IsSlots
      home-IsPrefixValue (omega arith) refl

abbrev fifth : ℕ
fifth = 5

abbrev in_use : List ℕ
in_use = 169083650 ∷ 169083652 ∷ []

allocate_address-IsLowestAddress_example : IsLowestAddress in_use home quarters 0 169083651
unfolding allocate_address pick_address free_host first_free require_slash_24 assignable check_slot
    count shift masked and_mask
allocate_address-IsLowestAddress_example =
    allocate_address-IsLowestAddress in_use home quarters 0 {a = 169083651} home-IsPrefixValue
      quarters-IsSlots refl

-- A kernel that is its list of routes, and whose commands always work.
abbrev list_applier : Applier
list_applier = record {
  Kernel = List Route;
  installed = λ k. some k;
  add = λ r k. some (r ∷ select (λ x. not (prefix_beq r.destination x.destination)) k);
  remove = λ r k. some (select (λ x. not (r == x)) k);
}

contains-select_other :
    (r : Route) (k : List Route) (x : Route)
    → contains (select (λ y. not (prefix_beq r.destination y.destination)) k) x
      ≡ (contains k x && not (prefix_beq r.destination x.destination))
contains-select_other r [] x = refl
contains-select_other r (y ∷ k) x = ground (arith, contains-select_other r k x)

contains-select_rest :
    (r : Route) (k : List Route) (x : Route)
    → contains (select (λ y. not (r == y)) k) x ≡ (contains k x && not (r == x))
contains-select_rest r [] x = refl
contains-select_rest r (y ∷ k) x = ground (arith, contains-select_rest r k x)

list_applier-IsRouteTable : IsRouteTable list_applier
list_applier-IsRouteTable = record {
  shows = λ k. k;
  manages = λ r. true;
  installed_shows = λ k rs e. ground (arith, e);
  add_shows = λ r k k' managed e x.
      let made : k' ≡ (r ∷ select (λ y. not (prefix_beq r.destination y.destination)) k) =
        ground (arith, e) in
      rw made (ground (arith, contains-select_other r k x));
  remove_shows = λ r k k' e x.
      let made : k' ≡ select (λ y. not (r == y)) k = ground (arith, e) in
      rw (made, contains-select_rest r k x) refl;
}

abbrev remote : Route
remote = record { destination = third_quarter; next_hop = 169082881 }

abbrev stale : Route
stale = record { destination = record { addr = 169083712; bits = 26 }; next_hop = 169082882 }

abbrev report : Converged
report = record { added = remote ∷ []; removed = stale ∷ []; unchanged = 0 }

remote-IsFunctional : IsFunctional (remote ∷ [])
remote-IsFunctional x y here there same =
    sym ((==_iff remote x).0 (ground arith)) ∙ (==_iff remote y).0 (ground arith)

twice-IsFunctional : IsFunctional (remote ∷ remote ∷ [])
twice-IsFunctional x y here there same =
    sym ((==_iff remote x).0 (ground arith)) ∙ (==_iff remote y).0 (ground arith)

converge-shows_example : contains (remote ∷ []) stale ≡ contains (remote ∷ remote ∷ []) stale
unfolding converge check_desired unique unique_after remove_stale add_missing
    list_applier-IsRouteTable
converge-shows_example =
    converge-shows list_applier list_applier-IsRouteTable (remote ∷ remote ∷ []) report (stale ∷ [])
      (remote ∷ []) twice-IsFunctional (λ x there. refl) refl stale

-- A machine whose neighbour at 10.0.0.97 has the third quarter of every user's network.
abbrev machine : MachineNetwork
machine = record {
  private_range = plan.prefix;
  runner_prefix = 26;
  users = (record { index = pos 3; subnet = home; instances = [] }) ∷ [];
  remote_slots = (record { slot = 2; next_hop = 167772257 }) ∷ [];
  frontends = [];
  management = [];
}

machine-HaveValues : HaveValues machine.users
machine-HaveValues = (home-IsPrefixValue, tt)

machine-check : check machine ≡ ok tt
unfolding check new check_range check_users check_remotes check_frontends require_slash_24 covers
    and_mask count
machine-check = refl

machine-routes :
    routes machine ≡ ok (record { destination = third_quarter; next_hop = 167772257 } ∷ [])
unfolding routes new count user_routes slot_routes slot_prefix require_slash_24 check_slot shift
    masked and_mask
machine-routes = refl

check-IsDirect_example : (rs : List Route) × (routes machine ≡ ok rs) × IsDirect rs
check-IsDirect_example = check-IsDirect machine machine-HaveValues machine-check
