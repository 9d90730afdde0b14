-- ===== src/Store/Hosts/Rows.antt =====
-- The rows of `hosts`, and the machines they stand for (crates/store/src/hosts.rs and runners.rs).
use bento.Shared.{
  ℕ, ◌≡◌, refl, sym, subst, ap, ◌∙◌, arith, Bool, true, if◌then◌else◌, String, List, [], ◌∷◌, ◌++◌,
  Option, none, some, ◌==◌, ==_iff, string_eq, Bool-cases, Option-cases, inl, inr, ◌↔◌, ◌⊎◌, ◌≢◌,
}
use bento.Shared.Int.{ℤ, int_eq}
use bento.Types.{Host}
use bento.Store.Database.{ok, >>=-eq-ok}
use bento.Store.Instances.{slot_to_sql}
use bento.Store.Observation.{HostHealth, HostSeen, placeable}
use bento.Store.Hosts.{
  Fleet, host_row, update_host, is_machine, machine_known, judge, learn_machine, contact_time,
  observe_tx, rename_machine, machine_row, unclaimed, write_host, new_host, ensure_tx,
}

-- The host's row stands for the machine.
abbrev pub IsMachine : ℤ → String → List Host → Type 0
IsMachine id machine_id hosts =
    (h : Host) × (host_row id hosts ≡ some h) × (h.machine_id ≡ some machine_id)

host_row-update_host :
    (id j : ℤ) (change : Host → Host) (hosts : List Host)
    → ((h : Host) → (change h).id ≡ h.id)
    → host_row j (update_host id change hosts) ≡ elim (host_row j hosts) [
      | none ↦ none
      | some h ↦ if h.id == id then some (change h) else some h
    ]
unfolding host_row update_host
host_row-update_host id j change [] keeps = refl
host_row-update_host id j change (h ∷ rows) keeps =
    ground (arith, keeps h, host_row-update_host id j change rows keeps)

host_row-id : (id : ℤ) (hosts : List Host) {h : Host} → host_row id hosts ≡ some h → h.id ≡ id
unfolding host_row
host_row-id id [] e = cc
host_row-id id (g ∷ rows) {h} e = elim (Bool-cases (g.id == id)) [
  | inl this ↦
      let same : g ≡ h = ground (arith, this, e) in
      subst (λ x. x.id ≡ id) same ((==_iff g.id id).0 this)
  | inr other ↦ host_row-id id rows {h = h} (ground (arith, other, e))
]

-- A machine ID that a row has stays when a row that has none learns one.
update_host-IsMachine :
    (id j : ℤ) (machine_id : String) (change : Host → Host) (hosts : List Host)
    → ((h : Host) → (change h).id ≡ h.id)
    → ((h : Host) → host_row id hosts ≡ some h → h.machine_id ≡ none)
    → IsMachine j machine_id hosts
    → IsMachine j machine_id (update_host id change hosts)
update_host-IsMachine id j machine_id change hosts keeps unknown (h, found, known) =
    elim (Bool-cases (h.id == id)) [
      | inl this ↦
          let e : j ≡ id = sym (host_row-id j hosts found) ∙ (==_iff h.id id).0 this in
          let nobody = unknown h (subst (λ k. host_row k hosts ≡ some h) e found) in
          absurd (ground (arith, known, nobody))
      | inr other ↦
          (h, ground (arith, host_row-update_host id j change hosts keeps, found, other), known)
    ]

abbrev learned : String → Host → Host
learned machine_id h = record h { machine_id = some machine_id }

-- The rows that `learn_machine` leaves.
learn_machine-ok :
    (id : ℤ) (known reported : Option String) (hosts : List Host) {hosts' : List Host}
    → learn_machine id known reported hosts ≡ ok hosts'
    → ((hosts' ≡ hosts) × ((known ≢ none) ⊎ (reported ≡ none)))
      ⊎ ((m : String) × (known ≡ none)
          × (reported ≡ some m)
          × (hosts' ≡ update_host id (learned m) hosts))
unfolding learn_machine
learn_machine-ok id (some stored) reported hosts e = inl (ground (arith, e), inl (λ n. cc))
learn_machine-ok id none none hosts e = inl (ground (arith, e), inr refl)
learn_machine-ok id none (some m) hosts e = inr (m, refl, refl, ground (arith, e))

pub learn_machine-IsMachine :
    (id j : ℤ) (machine_id : String) (h : Host) (reported : Option String) (hosts : List Host)
    {hosts' : List Host}
    → host_row id hosts ≡ some h
    → learn_machine id h.machine_id reported hosts ≡ ok hosts'
    → IsMachine j machine_id hosts
    → IsMachine j machine_id hosts'
learn_machine-IsMachine id j machine_id h reported hosts found e known =
    elim (learn_machine-ok id h.machine_id reported hosts e) [
      | inl (same, _) ↦ subst (IsMachine j machine_id) (sym same) known
      | inr (m, nobody, _, left) ↦ subst (IsMachine j machine_id) (sym left) (
          update_host-IsMachine id j machine_id (learned m) hosts (λ g. refl)
            (λ g there. ground (arith, found, there, nobody)) known)
    ]

pub observe_tx-ok :
    (formats : ℕ → Bool) (host_id : ℤ) (seen : HostSeen) (now : ℕ) (fleet fleet' : Fleet)
    {health : HostHealth}
    → observe_tx formats host_id seen now fleet ≡ ok (fleet', health)
    → (h : Host) × (host_row host_id fleet.hosts ≡ some h)
      × (learn_machine host_id h.machine_id seen.machine_id fleet.hosts ≡ ok fleet'.hosts)
      × (health ≡ judge h.machine_id seen.machine_id)
unfolding observe_tx
observe_tx-ok formats host_id seen now fleet fleet' {health} e =
    elim (Option-cases (host_row host_id fleet.hosts)) [
      | inl no_row ↦ absurd (ground (arith, no_row, e))
      | inr (h, found) ↦
          let (hosts, learn, e1) =
            >>=-eq-ok (learn_machine host_id h.machine_id seen.machine_id fleet.hosts) _
              (rw (found, observe_tx) at e) in
          let (contact, _, e2) =
            >>=-eq-ok (contact_time formats (judge h.machine_id seen.machine_id) now) _ e1 in
          let (_, _, e3) = >>=-eq-ok (slot_to_sql seen.cpu_count) _ e2 in
          let (_, _, e4) = >>=-eq-ok (slot_to_sql seen.memory_total_mib) _ e3 in
          let (_, _, e5) = >>=-eq-ok (slot_to_sql seen.storage_total_gib) _ e4 in
          let (_, _, e6) = >>=-eq-ok (slot_to_sql seen.storage_available_gib) _ e5 in
          let left : hosts ≡ fleet'.hosts = ground (arith, e6) in
          (
            h,
            found,
            subst (λ x. learn_machine host_id h.machine_id seen.machine_id fleet.hosts ≡ ok x) left
                learn,
            ground (arith, e6),
          )
    ]

host_row-rename_machine :
    (j : ℤ) (machine_id name libvirt_uri : String) (hosts : List Host) {h : Host}
    → host_row j hosts ≡ some h
    → (g : Host) × (host_row j (rename_machine machine_id name libvirt_uri hosts) ≡ some g)
      × (g.machine_id ≡ h.machine_id)
unfolding host_row rename_machine
host_row-rename_machine j machine_id name libvirt_uri [] e = cc
host_row-rename_machine j machine_id name libvirt_uri (g ∷ rows) {h} e =
    elim (Bool-cases (g.id == j)) [
      | inl this ↦
          let same : g ≡ h = ground (arith, this, e) in
          elim (Bool-cases (is_machine machine_id g)) [
            | inl renamed ↦ (
              record g { name = name; libvirt_uri = libvirt_uri },
              ground (arith, this, renamed),
              ap (λ x. x.machine_id) same,
            )
            | inr kept ↦ (g, ground (arith, this, kept), ap (λ x. x.machine_id) same)
          ]
      | inr other ↦
          let later : host_row j rows ≡ some h = ground (arith, other, e) in
          let (f, found, same) = host_row-rename_machine j machine_id name libvirt_uri rows later in
          (f, ground (arith, other, found), same)
    ]

host_row-append :
    (j : ℤ) (hosts : List Host) (g : Host) {h : Host}
    → host_row j hosts ≡ some h
    → host_row j (hosts ++ g ∷ []) ≡ some h
unfolding host_row
host_row-append j [] g e = cc
host_row-append j (f ∷ rows) g {h} e = elim (Bool-cases (f.id == j)) [
  | inl this ↦ ground (arith, this, e)
  | inr other ↦
      let later : host_row j rows ≡ some h = ground (arith, other, e) in
      ground (arith, other, host_row-append j rows g later)
]

unclaimed-none :
    (id : ℤ) (hosts : List Host) (h : Host)
    → unclaimed hosts ≡ some id
    → host_row id hosts ≡ some h
    → h.machine_id ≡ none
unfolding unclaimed host_row
unclaimed-none id [] h e found = cc
unclaimed-none id (g ∷ []) h e found = elim (Option-cases g.machine_id) [
  | inl nobody ↦ ground (arith, nobody, e, found)
  | inr (m, claimed) ↦ absurd (ground (arith, claimed, e))
]
unclaimed-none id (g ∷ f ∷ rows) h e found = cc

pub write_host-IsMachine :
    (formats : ℕ → Bool) (new_id : List Host → ℤ) (j : ℤ) (known : String)
    (machine_id name libvirt_uri : String) (now : ℕ) (hosts hosts' : List Host)
    → write_host formats new_id machine_id name libvirt_uri now hosts ≡ ok hosts'
    → IsMachine j known hosts
    → IsMachine j known hosts'
unfolding write_host
write_host-IsMachine formats new_id j known machine_id name libvirt_uri now hosts hosts' e before =
    let (h, found, it) = before in
    elim (Bool-cases (machine_known machine_id hosts)) [
      | inl there ↦
          let left : rename_machine machine_id name libvirt_uri hosts ≡ hosts' =
            ground (arith, there, e) in
          let (g, again, same) =
            host_row-rename_machine j machine_id name libvirt_uri hosts found in
          subst (IsMachine j known) left (g, again, same ∙ it)
      | inr new ↦ elim (Option-cases (unclaimed hosts)) [
        | inl full ↦
            let row = new_host (new_id hosts) machine_id name libvirt_uri now in
            let left : hosts ++ row ∷ [] ≡ hosts' = ground (arith, new, full, e) in
            subst (IsMachine j known) left (h, host_row-append j hosts row found, it)
        | inr (id, one) ↦
            let claim : Host → Host = λ r. record r {
              machine_id = some machine_id;
              name = name;
              libvirt_uri = libvirt_uri;
            } in
            let left : update_host id claim hosts ≡ hosts' = ground (arith, new, one, e) in
            subst (IsMachine j known) left (
              update_host-IsMachine id j known claim hosts (λ r. refl)
                (λ r there. unclaimed-none id hosts r one there) before)
      ]
    ]

-- The verdict is good when the machine is the one known already, or the first.
pub judge-good :
    (known reported : Option String)
    → (placeable (judge known reported) ≡ true)
      ↔ ((m : String) × (reported ≡ some m) × ((known ≡ none) ⊎ (known ≡ some m)))
unfolding judge placeable
judge-good known none = ((λ e. cc), λ (m, e, _). cc)
judge-good none (some m) = ((λ e. (m, refl, inl refl)), λ _. refl)
judge-good (some stored) (some m) = (
  λ e. (m, refl, inr (ground (arith, e, ==_iff stored m))),
  λ (n, e, same). ground (arith, e, same, ==_iff stored m),
)

pub learn_machine-row :
    (id : ℤ) (h : Host) (reported : Option String) (hosts hosts' : List Host) (m : String)
    → host_row id hosts ≡ some h
    → learn_machine id h.machine_id reported hosts ≡ ok hosts'
    → reported ≡ some m
    → IsMachine id m hosts' ↔ ((h.machine_id ≡ none) ⊎ (h.machine_id ≡ some m))
learn_machine-row id h reported hosts hosts' m found learn it =
    elim (learn_machine-ok id h.machine_id reported hosts learn) [
      | inl (same, inr silent) ↦ absurd (ground (arith, it, silent))
      | inl (same, inl known) ↦ (
        λ (g, there, stands).
            let row = subst (λ x. host_row id x ≡ some g) same there in
            inr (ground (arith, found, row, stands)),
        λ either. elim either [
          | inl nobody ↦ absurd (known nobody)
          | inr stands ↦ (h, subst (λ x. host_row id x ≡ some h) (sym same) found, stands)
        ],
      )
      | inr (n, nobody, reads, left) ↦
          let row : host_row id (update_host id (learned n) hosts) ≡ some (learned n h) = ground (
            arith,
            host_row-update_host id id (learned n) hosts (λ g. refl),
            found,
            host_row-id id hosts found,
            ==_iff h.id id,
          ) in
          (
            λ _. inl nobody,
            λ _. (
              learned n h,
              subst (λ x. host_row id x ≡ some (learned n h)) (sym left) row,
              ground (arith, it, reads),
            ),
          )
    ]

pub ensure_tx-ok :
    (formats : ℕ → Bool) (new_id : List Host → ℤ) (machine_id name libvirt_uri : String) (now : ℕ)
    (fleet fleet' : Fleet) {host : Host}
    → ensure_tx formats new_id machine_id name libvirt_uri now fleet ≡ ok (fleet', host)
    → (write_host formats new_id machine_id name libvirt_uri now fleet.hosts ≡ ok fleet'.hosts)
      × (machine_row machine_id fleet'.hosts ≡ some host)
unfolding ensure_tx
ensure_tx-ok formats new_id machine_id name libvirt_uri now fleet fleet' {host} e =
    let (hosts, write, e1) =
      >>=-eq-ok (write_host formats new_id machine_id name libvirt_uri now fleet.hosts) _ e in
    elim (Option-cases (machine_row machine_id hosts)) [
      | inl no_row ↦ absurd (ground (arith, no_row, e1))
      | inr (h, found) ↦
          let left : (hosts ≡ fleet'.hosts) × (h ≡ host) = ground (arith, found, e1) in
          (
            subst
                (λ x. write_host formats new_id machine_id name libvirt_uri now fleet.hosts ≡ ok x)
                left.0 write,
            subst (λ x. machine_row machine_id x ≡ some host) left.0
                (subst (λ x. machine_row machine_id hosts ≡ some x) left.1 found),
          )
    ]
