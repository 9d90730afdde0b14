-- ===== src/Network/Machine/Reach.antt =====
-- Where the routes of `MachineNetwork::routes` (crates/network/src/machine.rs) lead each address.
use bento.Shared.{
  ℕ, ◌-◌, ◌/◌, ◌%◌, ◌^◌, ◌<◌, Bool, false, ◌&&◌, ◌||◌, ltb, leb, nat_beq, List, [], ◌∷◌, ◌++◌, ◌≡◌,
  refl, inl, inr, arith, Bool-cases, All,
}
use bento.Network.Error.{ok, err, >>=-eq-ok}
use bento.Network.Prefix.{Ipv4Prefix, u32_mod, IsPrefixValue, covers}
use bento.Network.Slot.{Slots, new, count, shift, host_octet, slot_prefix, slot_of}
use bento.Network.Slot.Ranges.{IsSlots, slot_of-slot_prefix, bits-cases}
use bento.Network.Routes.{Route}
use bento.Network.Machine.{
  MachineUser, RemoteSlot, MachineNetwork, slot_routes, user_routes, routes,
}

-- Some route sends the address to the hop.
unfoldable pub leads : List Route → (a hop : ℕ) → Bool
leads [] a hop = false
leads (r ∷ rs) a hop = (covers r.destination a && nat_beq r.next_hop hop) || leads rs a hop

-- The address lies in the network of some user.
unfoldable pub in_user_network : List MachineUser → ℕ → Bool
in_user_network [] a = false
in_user_network (user ∷ users) a = covers user.subnet a || in_user_network users a

-- The slot is another machine's, which is reached through the hop.
unfoldable pub slot_through : (slot : ℕ) → (hop : ℕ) → List RemoteSlot → Bool
slot_through slot hop [] = false
slot_through slot hop (remote ∷ more) =
    (nat_beq remote.slot slot && nat_beq remote.next_hop hop) || slot_through slot hop more

-- The number of the slot that holds an address, among the 2 ^ (bits - 24) parts of its /24.
abbrev pub slot_number : (bits : ℕ) → (a : ℕ) → ℕ
slot_number bits a = a % 256 / 2 ^ (32 - bits)

leads-append :
    (rs qs : List Route) (a hop : ℕ) → leads (rs ++ qs) a hop ≡ (leads rs a hop || leads qs a hop)
unfolding leads
leads-append [] qs a hop = refl
leads-append (r ∷ rs) qs a hop = ground (arith, leads-append rs qs a hop)

-- What the types of addresses and prefix lengths promise of the users' networks.
abbrev pub HaveValues : List MachineUser → Type 0
HaveValues users = All (λ (user : MachineUser). IsPrefixValue user.subnet) users

module _ (slots : Slots) (sound : IsSlots slots) where
  shift-width : 2 ^ shift slots ≡ 2 ^ (32 - slots.bits)
  unfolding shift
  shift-width = elim (bits-cases slots sound) [
    | inl b ↦ ground arith
    | inr (inl b) ↦ ground arith
    | inr (inr (inl b)) ↦ ground arith
    | inr (inr (inr b)) ↦ ground arith
  ]

  -- The prefix of a slot covers the addresses of the network that have its number.
  covers-slot_prefix :
      (subnet : Ipv4Prefix) (slot a : ℕ) {p : Ipv4Prefix}
      → IsPrefixValue subnet
      → a < u32_mod
      → slot_prefix slots subnet slot ≡ ok p
      → covers p a ≡ (covers subnet a && nat_beq slot (slot_number slots.bits a))
  unfolding slot_of slot_prefix host_octet
  covers-slot_prefix subnet slot a {p} value fits e =
      ground
        (arith, slot_of-slot_prefix slots subnet slot a {p = p} sound value fits e, shift-width, e)

  leads-slot_routes :
      (subnet : Ipv4Prefix) (remotes : List RemoteSlot) (a hop : ℕ) {rs : List Route}
      → IsPrefixValue subnet
      → a < u32_mod
      → slot_routes slots subnet remotes ≡ ok rs
      → leads rs a hop ≡ (covers subnet a && slot_through (slot_number slots.bits a) hop remotes)
  unfolding leads slot_through slot_routes
  leads-slot_routes subnet [] a hop value fits e = ground (arith, e)
  leads-slot_routes subnet (remote ∷ more) a hop {rs} value fits e =
      let (p, placed, e₁) = >>=-eq-ok (slot_prefix slots subnet remote.slot) _ e in
      elim (Bool-cases (leb p.bits subnet.bits)) [
        | inl wide ↦ absurd (err-ne-ok (rw wide at e₁))
        | inr narrow ↦
            let (rest, more_placed, e₂) =
              >>=-eq-ok (slot_routes slots subnet more) _ (rw narrow at e₁) in
            ground (
              arith,
              e₂,
              covers-slot_prefix subnet remote.slot a {p = p} value fits placed,
              leads-slot_routes subnet more a hop {rs = rest} value fits more_placed,
            )
      ]
    where
      err-ne-ok : {refusal : _} → err refusal ≡ ok rs → ⊥
      err-ne-ok h = cc

  leads-user_routes :
      (remotes : List RemoteSlot) (users : List MachineUser) (a hop : ℕ) {rs : List Route}
      → HaveValues users
      → a < u32_mod
      → user_routes slots remotes users ≡ ok rs
      → leads rs a hop
        ≡ (in_user_network users a && slot_through (slot_number slots.bits a) hop remotes)
  unfolding leads user_routes in_user_network
  leads-user_routes remotes [] a hop values fits e = ground (arith, e)
  leads-user_routes remotes (user ∷ users) a hop (value, values) fits e =
      let (first, e₀, e₁) = >>=-eq-ok (slot_routes slots user.subnet remotes) _ e in
      let (rest, e₂, e₃) = >>=-eq-ok (user_routes slots remotes users) _ e₁ in
      ground (
        arith,
        e₃,
        leads-append first rest a hop,
        leads-slot_routes user.subnet remotes a hop {rs = first} value fits e₀,
        leads-user_routes remotes users a hop {rs = rest} values fits e₂,
      )

pub new-IsSlots : (bits : ℕ) {s : Slots} → new bits ≡ ok s → IsSlots s × (s.bits ≡ bits)
unfolding new
new-IsSlots bits h = ground (arith, h)

pub count-one : (s : Slots) → IsSlots s → nat_beq (count s) 1 ≡ leb s.bits 24
unfolding count
count-one s sound = elim (bits-cases s sound) [
  | inl b ↦ ground arith
  | inr (inl b) ↦ ground arith
  | inr (inr (inl b)) ↦ ground arith
  | inr (inr (inr b)) ↦ ground arith
]

-- The routes of a machine send an address through a hop exactly if the network is divided, the address
-- lies in a user's network, and the slot with its number is listed as another machine's, behind that
-- hop; for an address below 2 ^ 32 and users' prefixes in range.
pub routes-leads :
    (m : MachineNetwork) (a hop : ℕ) {rs : List Route}
    → HaveValues m.users
    → a < u32_mod
    → routes m ≡ ok rs
    → leads rs a hop ≡ (
        ltb 24 m.runner_prefix
        && (in_user_network m.users a
            && slot_through (slot_number m.runner_prefix a) hop m.remote_slots))
unfolding routes leads
routes-leads m a hop {rs} values fits e =
    let (slots, made, e₁) = >>=-eq-ok (new m.runner_prefix) _ e in
    let (sound, bits) = new-IsSlots m.runner_prefix made in
    elim (Bool-cases (nat_beq (count slots) 1)) [
      | inl single ↦ ground (arith, single, e₁, count-one slots sound)
      | inr divided ↦ ground (
        arith,
        divided,
        bits,
        count-one slots sound,
        leads-user_routes slots sound m.remote_slots m.users a hop {rs = rs} values fits
            (rw divided at e₁),
      )
    ]
