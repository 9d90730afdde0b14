-- ===== src/Network/Machine.antt =====
-- crates/network/src/machine.rs: the desired network state of one machine. The text of an index, which
-- names a bridge and a libvirt network, is made by the standard library, a parameter.
pub mod Reach
pub mod Checked
pub mod Applied
use Prim.Native.String.{◌++◌ as str_append}
use bento.Shared.{
  ℕ, Bool, true, false, ◌&&◌, ◌||◌, not, if◌then◌else◌, ltb, leb, nat_beq, String, List, [], ◌∷◌,
  ◌++◌, map, contains, nat_eq,
}
use bento.Shared.Int.{ℤ}
use bento.Network.Error.{
  invalid, range_too_narrow, slot_route_wide, user_outside, slot_outside, slot_twice,
  next_hop_inside, frontend_inside, Result, ok, err, ◌>>=◌, ◌>>◌,
}
use bento.Network.Prefix.{Ipv4Prefix, covers}
use bento.Network.Slot.{Slots, new, count, slot_prefix, require_slash_24}
use bento.Network.Routes.{Route}

pub record PortRange : Type 0 where
  pub from : ℕ
  pub to : ℕ

pub record PublishedInstance : Type 0 where
  pub address : ℕ
  pub http_ports : List ℕ
  pub port_ranges : List PortRange

pub record UserNetwork : Type 0 where
  pub name : String
  pub bridge : String
  pub subnet : Ipv4Prefix

pub record MachineUser : Type 0 where
  pub index : ℤ
  pub subnet : Ipv4Prefix
  pub instances : List PublishedInstance

pub record RemoteSlot : Type 0 where
  pub slot : ℕ
  pub next_hop : ℕ

pub record MachineNetwork : Type 0 where
  pub private_range : Ipv4Prefix
  pub runner_prefix : ℕ
  pub users : List MachineUser
  pub remote_slots : List RemoteSlot
  pub frontends : List ℕ
  pub management : List ℕ

pub record FirewallUser : Type 0 where
  pub network : UserNetwork
  pub instances : List PublishedInstance

pub record Ruleset : Type 0 where
  pub private_range : Ipv4Prefix
  pub users : List FirewallUser
  pub underlay_peers : Bool
  pub frontends : List ℕ
  pub runner_prefix : ℕ
  pub remote_slots : List ℕ
  pub management : List ℕ

module _ (write_index : ℤ → String) where
  unfoldable pub network_of : MachineUser → UserNetwork
  network_of user = record {
    name = str_append "bento-user-" (write_index user.index);
    bridge = str_append "bento" (write_index user.index);
    subnet = user.subnet;
  }

  unfoldable pub networks : MachineNetwork → List UserNetwork
  networks m = map network_of m.users

  unfoldable pub proxy_arp_bridges : MachineNetwork → List String
  proxy_arp_bridges m = map (λ (network : UserNetwork). network.bridge) (networks m)

  abbrev pub is_empty : List RemoteSlot → Bool
  is_empty [] = true
  is_empty (remote ∷ more) = false

  unfoldable pub ruleset_of : MachineNetwork → Ruleset
  ruleset_of m = record {
    private_range = m.private_range;
    users =
        map
          (λ (user : MachineUser). record { network = network_of user; instances = user.instances })
          m.users;
    underlay_peers = not (is_empty m.remote_slots);
    frontends = m.frontends;
    runner_prefix = m.runner_prefix;
    remote_slots = map (λ (remote : RemoteSlot). remote.slot) m.remote_slots;
    management = m.management;
  }

-- The inner loop of `routes`: one route for each remote slot, narrower than the user's network.
unfoldable pub slot_routes : Slots → Ipv4Prefix → List RemoteSlot → Result (List Route)
slot_routes slots subnet [] = ok []
slot_routes slots subnet (remote ∷ more) = slot_prefix slots subnet remote.slot >>= λ destination.
    if leb destination.bits subnet.bits
    then err (invalid (slot_route_wide destination subnet))
    else (slot_routes slots subnet more >>= λ routes.
        ok (record { destination = destination; next_hop = remote.next_hop } ∷ routes))

unfoldable pub user_routes : Slots → List RemoteSlot → List MachineUser → Result (List Route)
user_routes slots remotes [] = ok []
user_routes slots remotes (user ∷ users) = slot_routes slots user.subnet remotes >>= λ first.
    user_routes slots remotes users >>= λ rest. ok (first ++ rest)

unfoldable pub routes : MachineNetwork → Result (List Route)
routes m = new m.runner_prefix >>= λ slots.
    if nat_beq (count slots) 1 then ok [] else user_routes slots m.remote_slots m.users

unfoldable pub check_users : Ipv4Prefix → List MachineUser → Result (Unit {0})
check_users range [] = ok tt
check_users range (user ∷ users) =
    require_slash_24 user.subnet
    >> (if covers range user.subnet.addr
        then check_users range users
        else err (invalid (user_outside user.subnet range)))

-- `seen` holds the slots of the ones before.
unfoldable pub check_remotes :
    Slots → Ipv4Prefix → (seen : List ℕ) → List RemoteSlot → Result (Unit {0})
check_remotes slots range seen [] = ok tt
check_remotes slots range seen (remote ∷ more) =
    if leb (count slots) remote.slot
    then err (invalid (slot_outside remote.slot))
    else if contains seen remote.slot
    then err (invalid (slot_twice remote.slot))
    else if covers range remote.next_hop
    then err (invalid (next_hop_inside remote.next_hop remote.slot))
    else check_remotes slots range (remote.slot ∷ seen) more

unfoldable pub check_frontends : Ipv4Prefix → List ℕ → Result (Unit {0})
check_frontends range [] = ok tt
check_frontends range (frontend ∷ more) =
    if covers range frontend
    then err (invalid (frontend_inside frontend))
    else check_frontends range more

unfoldable pub check_range : MachineNetwork → Result (Unit {0})
check_range m =
    if ltb 24 m.private_range.bits
    then err (invalid (range_too_narrow m.private_range))
    else check_users m.private_range m.users

unfoldable pub check : MachineNetwork → Result (Unit {0})
check m = new m.runner_prefix >>= λ slots. check_range m >>= λ _.
    check_remotes slots m.private_range [] m.remote_slots >>= λ _.
    check_frontends m.private_range m.frontends
