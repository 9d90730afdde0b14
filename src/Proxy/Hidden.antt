-- ===== src/Proxy/Hidden.antt =====
-- Which instances are hidden from a visitor (crates/proxy/src/lib.rs).
use bento.Shared.{
  ℕ, false, nat_beq, Option, some, ◌≡◌, ◌≢◌, ◌⊎◌, ◌↔◌, inl, inr, refl, sym, ◌∙◌, subst, arith,
  nat_eq, Bool-cases, Option-cases, String,
}
use bento.Types.{Instance, Visibility}
use bento.Shared.Texts.{Text, text_eq}
use bento.Proxy.Host.{RequestHost, request_host}
use bento.Proxy.{
  Access, unauthenticated, forbidden, granted, Lookup, found, missing, failed, Proxy, Seams,
  not_found, is_off, is_running, access_of, serve, admit, route_instance, handle_connection,
}
use bento.Proxy.Reach.{IsNamed, route_host-IsNamed}
use bento.Proxy.Reach.Passing.{is_off_iff}

-- What a visitor may not see: an instance that is off, and one that the session check forbids to a caller,
-- on a port where it asks.
abbrev pub HiddenFrom : Proxy → Seams → (listener_port : ℕ) → Instance → Type 0
HiddenFrom p seams listener_port i =
    (i.visibility ≡ Visibility.off)
    ⊎ (((i.visibility ≡ Visibility.private) ⊎ (listener_port ≢ p.main_port))
        × ((check : String → Access) × (seams.sessions ≡ some check) × (check i.uuid ≡ forbidden)))

visibility-cases :
    (v : Visibility) → (v ≡ Visibility.off) ⊎ ((v ≡ Visibility.private) ⊎ (v ≡ Visibility.public))
visibility-cases Visibility.off = inl refl
visibility-cases Visibility.private = inr (inl refl)
visibility-cases Visibility.public = inr (inr refl)

module _ (p : Proxy) (seams : Seams) (listener_port : ℕ) where
  serve-ne-not_found : (i : Instance) → serve p seams listener_port i ≢ not_found
  unfolding serve
  serve-ne-not_found i = elim (Bool-cases (is_running i.state)) [
    | inl runs ↦ rw runs (λ e. cc)
    | inr stopped ↦ rw stopped (λ e. cc)
  ]

  admit-not_found :
      (i : Instance) (access : Access)
      → (admit p seams listener_port i access ≡ not_found) ↔ (access ≡ forbidden)
  unfolding admit
  admit-not_found i granted = (λ h. absurd (serve-ne-not_found i h), λ e. cc)
  admit-not_found i unauthenticated = (λ h. cc, λ e. cc)
  admit-not_found i forbidden = (λ h. refl, λ e. refl)

  access_of-forbidden :
      (i : Instance)
      → (access_of p seams i ≡ forbidden)
        ↔ ((check : String → Access) × (seams.sessions ≡ some check) × (check i.uuid ≡ forbidden))
  unfolding access_of
  access_of-forbidden i = elim (Option-cases seams.sessions) [
    | inl absent ↦ (
      λ h. absurd (none-forbidden (rw absent at h)),
      λ (check, there, _). absurd (ground (arith, absent, there)),
    )
    | inr (check, there) ↦ (λ h. (check, there, rw there at h), λ (check', there', h). rw there' h)
  ]
    where
      none-forbidden : unauthenticated ≡ forbidden → ⊥
      none-forbidden e = cc

  asks-not_found :
      (i : Instance)
      → (admit p seams listener_port i (access_of p seams i) ≡ not_found)
        ↔ ((check : String → Access) × (seams.sessions ≡ some check) × (check i.uuid ≡ forbidden))
  asks-not_found i = (
    λ h. (access_of-forbidden i).0 ((admit-not_found i (access_of p seams i)).0 h),
    λ h. (admit-not_found i (access_of p seams i)).1 ((access_of-forbidden i).1 h),
  )

  -- The three ways through the handler, for an instance that is there.
  found-off :
      (i : Instance)
      → i.visibility ≡ Visibility.off
      → route_instance p seams listener_port (found i) ≡ not_found
  unfolding route_instance
  found-off i off = ground (arith, off)

  found-asks :
      (i : Instance)
      → (i.visibility ≡ Visibility.private) ⊎ (listener_port ≢ p.main_port)
      → i.visibility ≢ Visibility.off
      → route_instance p seams listener_port (found i)
        ≡ admit p seams listener_port i (access_of p seams i)
  unfolding route_instance
  found-asks i (inl private) on = ground (arith, private)
  found-asks i (inr high) on =
      let main : nat_beq listener_port p.main_port ≡ false = ground (arith, high) in
      let shown : is_off i.visibility ≡ false = ground (arith, is_off_iff i.visibility, on) in
      ground (arith, main, shown)

  found-open :
      (i : Instance)
      → i.visibility ≡ Visibility.public
      → listener_port ≡ p.main_port
      → route_instance p seams listener_port (found i) ≡ serve p seams listener_port i
  unfolding route_instance
  found-open i public main = ground (arith, public, main)

  route_found-not_found :
      (i : Instance)
      → (route_instance p seams listener_port (found i) ≡ not_found)
        ↔ HiddenFrom p seams listener_port i
  route_found-not_found i = elim (visibility-cases i.visibility) [
    | inl off ↦ (λ h. inl off, λ h. found-off i off)
    | inr (inl private) ↦ asks (inl private) (λ off. absurd (ground (arith, off, private)))
    | inr (inr public) ↦ elim (Bool-cases (nat_beq listener_port p.main_port)) [
      | inl main ↦
          let on_main : listener_port ≡ p.main_port = ground (arith, main) in
          (
            λ h. absurd (serve-ne-not_found i (sym (found-open i public on_main) ∙ h)),
            λ h. absurd (elim h [
              | inl off ↦ ground (arith, off, public)
              | inr (inl private, _) ↦ ground (arith, private, public)
              | inr (inr high, _) ↦ high on_main
            ]),
          )
      | inr high ↦
          asks (inr (λ e. ground (arith, high, e))) (λ off. absurd (ground (arith, off, public)))
    ]
  ]
    where
      asks :
          (i.visibility ≡ Visibility.private) ⊎ (listener_port ≢ p.main_port)
          → i.visibility ≢ Visibility.off
          → (route_instance p seams listener_port (found i) ≡ not_found)
            ↔ HiddenFrom p seams listener_port i
      asks where_asked on = (
        λ h. inr (where_asked, (asks-not_found i).0 (sym (found-asks i where_asked on) ∙ h)),
        λ h.
            found-asks i where_asked on
            ∙ elim h [ inl off ↦ absurd (on off) | inr (_, asked) ↦ (asks-not_found i).1 asked ],
      )

  -- A request for the name of an instance, by a host that is a single label below the instance domain and
  -- not the base domain, is answered as not found exactly if no instance has the name, or the one that
  -- has it is hidden from the caller: it is off, or the session check forbids it to the caller on a port
  -- that is not the main one or where it is private.
  pub handle_connection-not_found_iff :
      (request : RequestHost) (server_name : Option Text) (name : Text)
      → IsNamed p (request_host request server_name) name
      → (handle_connection p seams listener_port request server_name ≡ not_found) ↔ (
          (seams.instance_by_name name ≡ missing)
          ⊎ ((i : Instance) × (seams.instance_by_name name ≡ found i)
              × HiddenFrom p seams listener_port i))
  unfolding handle_connection
  handle_connection-not_found_iff request server_name name named =
      rw (route_host-IsNamed p seams listener_port (request_host request server_name) name named)
        (by_lookup (seams.instance_by_name name))
    where
      by_lookup :
          (lookup : Lookup)
          → (route_instance p seams listener_port lookup ≡ not_found) ↔ (
              (lookup ≡ missing)
              ⊎ ((i : Instance) × (lookup ≡ found i) × HiddenFrom p seams listener_port i))
      by_lookup missing = (λ h. inl refl, λ h. unfold route_instance in refl)
      by_lookup failed = (
        λ h. unfold route_instance in absurd (failed-ne h),
        λ h. absurd (elim h [ inl e ↦ failed-missing e | inr (i, e, _) ↦ failed-found i e ]),
      )
        where
          failed-ne : route_instance p seams listener_port failed ≡ not_found → ⊥
          failed-ne e = unfold route_instance in cc

          failed-missing : failed ≡ missing → ⊥
          failed-missing e = cc

          failed-found : (i : Instance) → failed ≡ found i → ⊥
          failed-found i e = cc
      by_lookup (found i) = (
        λ h. inr (i, refl, (route_found-not_found i).0 h),
        λ h. elim h [
          | inl e ↦ absurd (found-missing e)
          | inr (j, e, hidden) ↦
              (route_found-not_found i).1
                (subst (λ k. HiddenFrom p seams listener_port k) (same j e) hidden)
        ],
      )
        where
          found-missing : found i ≡ missing → ⊥
          found-missing e = cc

          same : (j : Instance) → found i ≡ found j → j ≡ i
          same j e = cc
