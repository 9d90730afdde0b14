-- ===== src/Proxy/Reach.antt =====
-- Which requests reach an instance (crates/proxy/src/lib.rs).
pub mod Passing
use bento.Shared.{
  ℕ, true, false, ◌&&◌, ◌||◌, not, nat_beq, [], ◌∷◌, ◌++◌, Option, some, ◌≡◌, ◌≢◌, ◌⊎◌, ◌↔◌, inl,
  inr, refl, sym, ◌∙◌, subst, arith, ◌==◌, ==_iff, contains, nat_eq, Bool-cases, Option-cases,
  String,
}
use bento.Types.{Instance, State, Visibility, effective_http_port}
use bento.Shared.Texts.{Text, text_eq, strip_suffix, strip_suffix_iff}
use bento.Proxy.Host.{RequestHost, request_host}
use bento.Proxy.{
  Access, unauthenticated, forbidden, granted, Lookup, found, missing, failed, Proxy, Seams,
  control, not_found, unavailable, forward, is_off, is_private, is_running, is_empty, access_of,
  target_port, serve, admit, route_instance, route_name, route_host, handle_connection,
}
use bento.Proxy.Reach.Passing.{
  MayPass, is_empty_iff, Passed, route_instance-forward, forward-route_instance, target_port-cases,
}

-- A host below the instance domain, by its one label.
pub record IsNamed (p : Proxy) (host name : Text) : Type 0 where
  pub not_base : host ≢ p.base_domain
  pub spelled : host ≡ name ++ (b'.' ∷ p.instance_domain)
  pub not_empty : name ≢ []
  pub one_label : contains name b'.' ≡ false

-- What it takes for a request to reach the instance on a port of it.
pub record Reaches (p : Proxy) (seams : Seams) (listener_port : ℕ) (host : Text) (i : Instance)
    (port : ℕ) : Type 0 where
  pub name : Text
  pub named : IsNamed p host name
  pub known : seams.instance_by_name name ≡ found i
  pub published : i.visibility ≢ Visibility.off
  pub allowed : MayPass p seams listener_port i
  pub running : i.state ≡ State.running
  pub at_port :
      ((listener_port ≡ p.main_port) × (port ≡ effective_http_port i))
      ⊎ ((listener_port ≢ p.main_port) × (port ≡ listener_port))

module _ (p : Proxy) (seams : Seams) (listener_port : ℕ) where
  route_host-forward :
      (host : Text) (i : Instance) (port : ℕ)
      → route_host p seams listener_port host ≡ forward i port
      → Reaches p seams listener_port host i port
  unfolding route_host route_name
  route_host-forward host i port h = elim (Bool-cases (host == p.base_domain)) [
    | inl base ↦ elim (Bool-cases (nat_beq listener_port p.main_port && seams.has_control)) [
      | inl there ↦ absurd (control-ne-forward (rw (base, there) at h))
      | inr not_there ↦ absurd (page-ne-forward (rw (base, not_there) at h))
    ]
    | inr other ↦ elim (Option-cases (strip_suffix (b'.' ∷ p.instance_domain) host)) [
      | inl foreign ↦ absurd (page-ne-forward (rw (other, foreign) at h))
      | inr (name, front) ↦
          let h₁ = rw (other, front) at h in
          elim (Bool-cases (is_empty name || contains name b'.')) [
            | inl bad ↦ absurd (page-ne-forward (rw bad at h₁))
            | inr good ↦
                let (known, published, allowed, running, at_port) =
                  route_instance-forward p seams listener_port (seams.instance_by_name name) i port
                    (rw good at h₁) in
                record {
                  name = name;
                  named = record {
                    not_base = λ e. ground (arith, e, other, ==_iff host p.base_domain);
                    spelled = (strip_suffix_iff (b'.' ∷ p.instance_domain) host name).0 front;
                    not_empty = (is_empty_iff name).0 (ground (arith, good));
                    one_label = ground (arith, good);
                  };
                  known = known;
                  published = published;
                  allowed = allowed;
                  running = running;
                  at_port = (target_port-cases p seams listener_port i port).0 at_port;
                }
          ]
    ]
  ]
    where
      control-ne-forward : control ≡ forward i port → ⊥
      control-ne-forward e = cc

      page-ne-forward : not_found ≡ forward i port → ⊥
      page-ne-forward e = cc

  -- A host that names an instance is looked up.
  pub route_host-IsNamed :
      (host name : Text)
      → IsNamed p host name
      → route_host p seams listener_port host
        ≡ route_instance p seams listener_port (seams.instance_by_name name)
  unfolding route_host route_name
  route_host-IsNamed host name named =
      let front = (strip_suffix_iff (b'.' ∷ p.instance_domain) host name).1 named.spelled in
      let other : (host == p.base_domain) ≡ false =
        ground (arith, named.not_base, ==_iff host p.base_domain) in
      let label = (is_empty_iff name).1 named.not_empty in
      rw (other, front) (ground (arith, label, named.one_label))

  -- A request is passed on to a port of an instance exactly if its host is a single label below the
  -- instance domain and not the base domain, the label is the instance's name, the instance is published
  -- and runs, the caller may pass (anybody on the main port of a public instance, and otherwise a caller
  -- with the owner's grant or a share), and the port is the instance's HTTP port on the main port and the
  -- listener's own elsewhere.
  pub handle_connection-forward_iff :
      (request : RequestHost) (server_name : Option Text) (i : Instance) (port : ℕ)
      → (handle_connection p seams listener_port request server_name ≡ forward i port)
        ↔ Reaches p seams listener_port (request_host request server_name) i port
  unfolding handle_connection
  handle_connection-forward_iff request server_name i port =
      let host = request_host request server_name in
      (
        route_host-forward host i port,
        λ r.
            let passed : Passed p seams listener_port (found i) i port = (
              refl,
              r.published,
              r.allowed,
              r.running,
              (target_port-cases p seams listener_port i port).1 r.at_port,
            ) in
            route_host-IsNamed host r.name r.named
            ∙ rw (r.known) (forward-route_instance p seams listener_port i port passed),
      )
