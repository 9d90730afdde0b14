-- ===== src/Network/Machine/Checked.antt =====
-- What `MachineNetwork::check` (crates/network/src/machine.rs) rules out.
use native.Mathlib.Nat
use native.Mathlib.Numerals.{towards_suc}
use bento.Shared.{
  ℕ, ◌+◌, ◌-◌, ◌*◌, ◌/◌, ◌%◌, ◌^◌, ◌≤◌, ◌<◌, true, false, nat_beq, List, [], ◌∷◌, ◌++◌, ◌≡◌, refl,
  inl, inr, arith, Bool-cases, contains, nat_eq,
}
use bento.Network.Error.{ok, >>=-eq-ok}
use bento.Network.Prefix.{Ipv4Prefix, u32_mod, and_mask, masked, covers}
use bento.Network.Slot.{Slots, new, count, shift, slot_prefix, require_slash_24, check_slot}
use bento.Network.Routes.{Route}
use bento.Network.Machine.{
  MachineUser, RemoteSlot, MachineNetwork, slot_routes, user_routes, routes, check_users,
  check_remotes, check_range, check,
}
use bento.Network.Machine.Reach.{
  leads, in_user_network, slot_through, slot_number, HaveValues, new-IsSlots, count-one,
  routes-leads,
}

pow_split : (bits : ℕ) → bits ≤ 24 → 2 ^ (32 - bits) ≡ 256 * 2 ^ (24 - bits)
pow_split bits h =
    let k : ℕ = 24 - bits in
    let e : 32 - bits ≡ k + 8 = omega arith in rw e (simp towards_suc (omega arith))

-- Addresses that agree in their high 24 bits agree in fewer of them.
div_pow-eq :
    (bits x y : ℕ) → bits ≤ 24 → x / 256 ≡ y / 256 → x / 2 ^ (32 - bits) ≡ y / 2 ^ (32 - bits)
div_pow-eq bits x y h e =
    rw
      (
        pow_split bits h,
        ← Nat.div-div-eq-div-mul x 256 (2 ^ (24 - bits)),
        e,
        Nat.div-div-eq-div-mul y 256 (2 ^ (24 - bits)),
      )
      refl

-- A user's network that starts in a range of at most 24 bits lies in it.
covers_range :
    (range subnet : Ipv4Prefix) (a : ℕ)
    → range.bits ≤ 24
    → subnet.bits ≡ 24
    → covers range subnet.addr ≡ true
    → covers subnet a ≡ true
    → covers range a ≡ true
unfolding covers and_mask
covers_range range subnet a wide slash inside within =
    let same : a / 256 ≡ subnet.addr / 256 = ground (arith, within, slash) in
    ground (arith, inside, div_pow-eq range.bits a subnet.addr wide same)

check_range-ok :
    (m : MachineNetwork)
    → check_range m ≡ ok tt
    → (m.private_range.bits ≤ 24) × (check_users m.private_range m.users ≡ ok tt)
unfolding check_range
check_range-ok m e = ground (arith, e)

-- What a plan that passes the check is made of.
pub record IsChecked (m : MachineNetwork) : Type 0 where
  pub slots : Slots
  pub made : new m.runner_prefix ≡ ok slots
  pub wide : m.private_range.bits ≤ 24
  pub users_checked : check_users m.private_range m.users ≡ ok tt
  pub remotes_checked : check_remotes slots m.private_range [] m.remote_slots ≡ ok tt

pub check-IsChecked : (m : MachineNetwork) → check m ≡ ok tt → IsChecked m
unfolding check
check-IsChecked m e =
    let (slots, made, e₁) = >>=-eq-ok (new m.runner_prefix) _ e in
    let (_, ranged, e₂) = >>=-eq-ok (check_range m) _ e₁ in
    let (_, remotes, e₃) = >>=-eq-ok (check_remotes slots m.private_range [] m.remote_slots) _ e₂ in
    let (wide, users) = check_range-ok m ranged in
    record {
      slots = slots;
      made = made;
      wide = wide;
      users_checked = users;
      remotes_checked = remotes;
    }

-- The networks of users that pass the check lie in the range.
pub in_user_network-covers :
    (range : Ipv4Prefix) (users : List MachineUser) (a : ℕ)
    → range.bits ≤ 24
    → check_users range users ≡ ok tt
    → in_user_network users a ≡ true
    → covers range a ≡ true
unfolding check_users in_user_network require_slash_24
in_user_network-covers range [] a wide e h = cc
in_user_network-covers range (user ∷ users) a wide e h =
    ground (
      arith,
      e,
      h,
      covers_range range user.subnet a wide,
      in_user_network-covers range users a wide,
    )

-- A slot that passes the check exists, is not one of those before, and its hop is outside the range.
slot_through-facts :
    (slots : Slots) (range : Ipv4Prefix) (seen : List ℕ) (remotes : List RemoteSlot) (slot hop : ℕ)
    → check_remotes slots range seen remotes ≡ ok tt
    → slot_through slot hop remotes ≡ true
    → (slot < count slots) × (contains seen slot ≡ false) × (covers range hop ≡ false)
unfolding check_remotes slot_through
slot_through-facts slots range seen [] slot hop e h = cc
slot_through-facts slots range seen (remote ∷ more) slot hop e h =
    ground (arith, e, h, slot_through-facts slots range (remote.slot ∷ seen) more slot hop)

-- Each slot has one hop.
slot_through-one :
    (slots : Slots) (range : Ipv4Prefix) (seen : List ℕ) (remotes : List RemoteSlot)
    (slot hop hop' : ℕ)
    → check_remotes slots range seen remotes ≡ ok tt
    → slot_through slot hop remotes ≡ true
    → slot_through slot hop' remotes ≡ true
    → hop ≡ hop'
unfolding check_remotes slot_through
slot_through-one slots range seen [] slot hop hop' e h h' = cc
slot_through-one slots range seen (remote ∷ more) slot hop hop' e h h' =
    let rest = remote.slot ∷ seen in
    ground (
      arith,
      e,
      h,
      h',
      slot_through-one slots range rest more slot hop hop',
      slot_through-facts slots range rest more slot hop,
      slot_through-facts slots range rest more slot hop',
    )

slot_prefix-total :
    (slots : Slots) (subnet : Ipv4Prefix) (slot : ℕ)
    → require_slash_24 subnet ≡ ok tt
    → slot < count slots
    → (p : Ipv4Prefix) × (slot_prefix slots subnet slot ≡ ok p) × (p.bits ≡ slots.bits)
unfolding slot_prefix
slot_prefix-total slots subnet slot whole below = (
  record { addr = ((masked subnet).addr + slot * 2 ^ shift slots) % u32_mod; bits = slots.bits },
  rw whole (unfold check_slot in ground (arith, below)),
  refl,
)

-- Every slot that passes the check has a route, narrower than the network.
slot_routes-total :
    (slots : Slots) (range : Ipv4Prefix) (seen : List ℕ) (remotes : List RemoteSlot)
    (subnet : Ipv4Prefix)
    → 24 < slots.bits
    → require_slash_24 subnet ≡ ok tt
    → check_remotes slots range seen remotes ≡ ok tt
    → (rs : List Route) × (slot_routes slots subnet remotes ≡ ok rs)
unfolding slot_routes check_remotes
slot_routes-total slots range seen [] subnet narrow whole e = ([], refl)
slot_routes-total slots range seen (remote ∷ more) subnet narrow whole e =
    let (p, placed, bits) = slot_prefix-total slots subnet remote.slot whole (ground (arith, e)) in
    let (rs, rest) =
      slot_routes-total slots range (remote.slot ∷ seen) more subnet narrow whole
        (ground (arith, e)) in
    let slash : subnet.bits ≡ 24 = unfold require_slash_24 in ground (arith, whole) in
    (
      record { destination = p; next_hop = remote.next_hop } ∷ rs,
      ground (arith, placed, rest, bits, slash, narrow),
    )

user_routes-total :
    (slots : Slots) (range : Ipv4Prefix) (remotes : List RemoteSlot) (users : List MachineUser)
    → 24 < slots.bits
    → check_remotes slots range [] remotes ≡ ok tt
    → check_users range users ≡ ok tt
    → (rs : List Route) × (user_routes slots remotes users ≡ ok rs)
unfolding user_routes check_users
user_routes-total slots range remotes [] narrow e h = ([], refl)
user_routes-total slots range remotes (user ∷ users) narrow e h =
    let (_, whole, h₁) = >>=-eq-ok (require_slash_24 user.subnet) _ h in
    let (first, here) = slot_routes-total slots range [] remotes user.subnet narrow whole e in
    let (rest, there) = user_routes-total slots range remotes users narrow e (ground (arith, h₁)) in
    (first ++ rest, ground (arith, here, there))

routes-total : (m : MachineNetwork) → IsChecked m → (rs : List Route) × (routes m ≡ ok rs)
unfolding routes
routes-total m checked =
    let slots = checked.slots in
    let (sound, bits) = new-IsSlots m.runner_prefix checked.made in
    elim (Bool-cases (nat_beq (count slots) 1)) [
      | inl single ↦ ([], rw (checked.made) (ground (arith, single)))
      | inr divided ↦
          let narrow : 24 < slots.bits = ground (arith, divided, count-one slots sound) in
          let (rs, made) =
            user_routes-total slots m.private_range m.remote_slots m.users narrow
              checked.remotes_checked checked.users_checked in
          (rs, rw (checked.made) (ground (arith, divided, made)))
    ]

-- Routes that lead each address one way at most, and never lead a hop on.
pub record IsDirect (rs : List Route) : Type 0 where
  pub one_hop :
      (a hop hop' : ℕ) → a < u32_mod → leads rs a hop ≡ true → leads rs a hop' ≡ true → hop ≡ hop'
  pub hop_stays :
      (a hop hop' : ℕ)
      → a < u32_mod
      → hop < u32_mod
      → leads rs a hop ≡ true
      → leads rs hop hop' ≡ false

-- A plan that passes the check has routes, and they lead each address below 2 ^ 32 through one hop at
-- most, which no route leads on; if the users' prefixes are in range.
pub check-IsDirect :
    (m : MachineNetwork)
    → HaveValues m.users
    → check m ≡ ok tt
    → (rs : List Route) × (routes m ≡ ok rs) × IsDirect rs
check-IsDirect m values e =
    let checked = check-IsChecked m e in
    let (rs, made) = routes-total m checked in
    let range = m.private_range in
    let number = slot_number m.runner_prefix in
    let at = λ (a hop : ℕ) (fits : a < u32_mod). routes-leads m a hop {rs = rs} values fits made in
    let facts = λ (slot hop : ℕ).
      slot_through-facts checked.slots range [] m.remote_slots slot hop checked.remotes_checked in
    (
      rs,
      made,
      record {
        one_hop = λ a hop hop' fits h h'.
            slot_through-one checked.slots range [] m.remote_slots (number a) hop hop'
              checked.remotes_checked (ground (arith, at a hop fits, h))
              (ground (arith, at a hop' fits, h'));
        hop_stays = λ a hop hop' fits hop_fits h. ground (
          arith,
          at a hop fits,
          h,
          at hop hop' hop_fits,
          facts (number a) hop,
          in_user_network-covers range m.users hop checked.wide checked.users_checked,
        );
      },
    )
