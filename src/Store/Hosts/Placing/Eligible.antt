-- ===== src/Store/Hosts/Placing/Eligible.antt =====
-- The hosts that can take an instance (crates/store/src/runners.rs).
use bento.Shared.{
  ℕ, ◌^◌, ◌+◌, ◌-◌, min, ◌≤◌, ◌<◌, ◌≡◌, refl, subst, arith, max, true, nat_beq, String, Option,
  none, some, ==_iff, string_eq, inl, inr, ◌↔◌, Bool-cases, Option-cases,
}
use bento.Types.{Host, Placing}
use bento.Store.Database.{ok, ◌>>=◌, >>=-eq-ok}
use bento.Store.Instances.{to_sql_int, saturating_add}
use bento.Store.Observation.{HostHealth, Observation, placeable}
use bento.Store.Hosts.{Fleet, observation_row}
use bento.Store.Hosts.Placing.{
  Float, Weight, eligible, active_slots, reserved, unwrap_or_zero, check_arch, check_disk,
  overcommitted_memory_mib, weigh, weigh_host,
}

-- What a host needs, read from the tables.
pub record HasRoom {F : Type 0} (float : Float F) (fleet : Fleet) (want : Placing) (ratio : F)
    (h : Host) : Type 0 where
  pub seen : Observation
  pub observed : observation_row h.id fleet.observations ≡ some seen
  pub healthy : seen.health ≡ HostHealth.ok
  pub owns_slot : 0 < active_slots h.id fleet.slots
  pub same_arch : (a b : String) → want.arch ≡ some a → seen.arch ≡ some b → a ≡ b
  pub memory_known : 0 < unwrap_or_zero seen.memory_total_mib
  pub memory_left :
      saturating_add (reserved (λ i. i.memory_mib) h.id fleet.instances) want.memory_mib
      ≤ overcommitted_memory_mib float (unwrap_or_zero seen.memory_total_mib) ratio
  pub disk_left : (n : ℕ) → seen.storage_available_gib ≡ some n → want.disk_gib ≤ n
  pub memory_sum : reserved (λ i. i.memory_mib) h.id fleet.instances < 2 ^ 63
  pub vcpu_sum : reserved (λ i. i.vcpu) h.id fleet.instances < 2 ^ 63

check_arch-none :
    (want host : Option String)
    → (check_arch want host ≡ none) ↔ ((a b : String) → want ≡ some a → host ≡ some b → a ≡ b)
unfolding check_arch
check_arch-none none host = (λ e a b l r. absurd (ground (arith, l)), λ _. refl)
check_arch-none (some a) none = (λ e b c l r. absurd (ground (arith, r)), λ _. refl)
check_arch-none (some a) (some b) = (
  λ e c d l r. ground (arith, e, l, r, ==_iff a b),
  λ same. ground (arith, same a b refl refl, ==_iff a b),
)

check_disk-none :
    (available : Option ℕ) (wants : ℕ)
    → (check_disk available wants ≡ none) ↔ ((n : ℕ) → available ≡ some n → wants ≤ n)
unfolding check_disk
check_disk-none none wants = (λ e n l. absurd (ground (arith, l)), λ _. refl)
check_disk-none (some m) wants =
    (λ e n l. ground (arith, e, l), λ enough. ground (arith, enough m refl))

healthy_iff : (h : HostHealth) → (placeable h ≡ true) ↔ (h ≡ HostHealth.ok)
unfolding placeable
healthy_iff h = ground arith

to_sql_int-ok : (n m : ℕ) → to_sql_int n ≡ ok m → (n < 2 ^ 63) × (m ≡ n)
unfolding to_sql_int
to_sql_int-ok n m e = ground (arith, e)

module _ {F : Type 0} (float : Float F) (fleet : Fleet) (want : Placing) (ratio : F) where
  weigh-eligible :
      (o : Observation) (memory vcpu : ℕ) {w : Weight F}
      → weigh float o want ratio memory vcpu ≡ eligible w
      → (0 < unwrap_or_zero o.memory_total_mib)
        × (saturating_add memory want.memory_mib
            ≤ overcommitted_memory_mib float (unwrap_or_zero o.memory_total_mib) ratio)
        × (check_disk o.storage_available_gib want.disk_gib ≡ none)
  unfolding weigh
  weigh-eligible o memory vcpu e =
      elim (Option-cases (check_disk o.storage_available_gib want.disk_gib)) [
        | inl fits ↦ ground (arith, fits, e)
        | inr (reason, short) ↦ absurd (ground (arith, short, e))
      ]

  -- A host that is weighed as eligible has all that the instance needs.
  pub weigh_host-HasRoom :
      (h : Host) {w : Weight F}
      → weigh_host float fleet h want ratio ≡ ok (eligible w)
      → HasRoom float fleet want ratio h
  unfolding weigh_host
  weigh_host-HasRoom h {w} e = elim (Option-cases (observation_row h.id fleet.observations)) [
    | inl unseen ↦ absurd (ground (arith, unseen, e))
    | inr (o, observed) ↦ elim (Bool-cases (placeable o.health)) [
      | inr ill ↦ absurd (ground (arith, observed, ill, e))
      | inl well ↦ elim (Bool-cases (nat_beq (active_slots h.id fleet.slots) 0)) [
        | inl no_slot ↦ absurd (ground (arith, observed, well, no_slot, e))
        | inr has_slot ↦ elim (Option-cases (check_arch want.arch o.arch)) [
          | inr (reason, other) ↦ absurd (ground (arith, observed, well, has_slot, other, e))
          | inl same ↦
              let body : (to_sql_int (reserved (λ i. i.memory_mib) h.id fleet.instances)
                    >>= λ memory.
                        to_sql_int (reserved (λ i. i.vcpu) h.id fleet.instances) >>= λ vcpu.
                        ok (weigh float o want ratio memory vcpu))
                  ≡ ok (eligible w) =
                ground (arith, observed, well, has_slot, same, e) in
              let (memory, m, e1) =
                >>=-eq-ok (to_sql_int (reserved (λ i. i.memory_mib) h.id fleet.instances)) _ body in
              let (vcpu, v, e2) =
                >>=-eq-ok (to_sql_int (reserved (λ i. i.vcpu) h.id fleet.instances)) _ e1 in
              let (m_small, m_is) = to_sql_int-ok _ memory m in
              let (v_small, _) = to_sql_int-ok _ vcpu v in
              let last : weigh float o want ratio memory vcpu ≡ eligible w = ground (arith, e2) in
              let (known, left, disk) = weigh-eligible o memory vcpu last in
              record {
                seen = o;
                observed = observed;
                healthy = (healthy_iff o.health).0 well;
                owns_slot = ground (arith, has_slot);
                same_arch = (check_arch-none want.arch o.arch).0 same;
                memory_known = known;
                memory_left =
                    subst
                      (λ x.
                        saturating_add x want.memory_mib
                        ≤ overcommitted_memory_mib float (unwrap_or_zero o.memory_total_mib) ratio)
                      m_is left;
                disk_left = (check_disk-none o.storage_available_gib want.disk_gib).0 disk;
                memory_sum = m_small;
                vcpu_sum = v_small;
              }
        ]
      ]
    ]
  ]

  -- How full the host would be: its memory, of what it may promise, and its processors, with the new instance.
  abbrev pub load : (h : Host) → HasRoom float fleet want ratio h → Weight F
  load h room = record {
    memory_ratio =
        float.divide
          (float.from_u64 (
            min (reserved (λ i. i.memory_mib) h.id fleet.instances + want.memory_mib) (2 ^ 64 - 1)))
          (float.from_u64 (
            float.to_u64
              (float.times (float.from_u64 (unwrap_or_zero room.seen.memory_total_mib)) ratio)));
    vcpu_ratio =
        float.divide
          (float.from_u64
            (min (reserved (λ i. i.vcpu) h.id fleet.instances + want.vcpu) (2 ^ 64 - 1)))
          (float.from_u64 (max (unwrap_or_zero room.seen.cpu_count) 1));
  }

  -- A host that has all that the instance needs is weighed as eligible, with its load.
  pub HasRoom-weigh_host :
      (h : Host) (room : HasRoom float fleet want ratio h)
      → weigh_host float fleet h want ratio ≡ ok (eligible (load h room))
  unfolding weigh_host weigh to_sql_int saturating_add overcommitted_memory_mib
  HasRoom-weigh_host h room = ground (
    arith,
    room.observed,
    (healthy_iff room.seen.health).1 room.healthy,
    room.owns_slot,
    (check_arch-none want.arch room.seen.arch).1 room.same_arch,
    room.memory_known,
    room.memory_left,
    (check_disk-none room.seen.storage_available_gib want.disk_gib).1 room.disk_left,
    room.memory_sum,
    room.vcpu_sum,
  )
