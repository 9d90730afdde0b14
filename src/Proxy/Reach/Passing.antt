-- ===== src/Proxy/Reach/Passing.antt =====
-- Which requests for an instance pass the tests of the handler (crates/proxy/src/lib.rs).
use bento.Shared.{
  ℕ, true, false, ◌||◌, not, nat_beq, [], ◌∷◌, some, ◌≡◌, ◌≢◌, ◌⊎◌, ◌↔◌, inl, inr, refl, arith,
  nat_eq, Bool-cases, Option-cases, String,
}
use bento.Types.{Instance, State, Visibility, effective_http_port}
use bento.Shared.Texts.{Text, text_eq}
use bento.Proxy.{
  Access, unauthenticated, forbidden, granted, Lookup, found, missing, failed, Proxy, Seams,
  not_found, unavailable, forward, is_off, is_private, is_running, is_empty, access_of, target_port,
  serve, admit, route_instance,
}

-- Who may pass to the instance: anybody on the main port where it is public, and otherwise a caller to
-- whom the session check grants it.
abbrev pub MayPass : Proxy → Seams → (listener_port : ℕ) → Instance → Type 0
MayPass p seams listener_port i =
    ((i.visibility ≡ Visibility.public) × (listener_port ≡ p.main_port))
    ⊎ ((check : String → Access) × (seams.sessions ≡ some check) × (check i.uuid ≡ granted))

is_running_iff : (s : State) → (is_running s ≡ true) ↔ (s ≡ State.running)
is_running_iff State.running = ground arith
is_running_iff State.stopped = ground arith
is_running_iff State.starting = ground arith

pub is_off_iff : (v : Visibility) → (is_off v ≡ true) ↔ (v ≡ Visibility.off)
is_off_iff Visibility.off = ground arith
is_off_iff Visibility.private = ground arith
is_off_iff Visibility.public = ground arith

-- An instance that is neither off nor private is public.
public_of : (v : Visibility) → is_off v ≡ false → is_private v ≡ false → v ≡ Visibility.public
public_of Visibility.off h k = cc
public_of Visibility.private h k = cc
public_of Visibility.public h k = refl

private_of : (v : Visibility) → v ≡ Visibility.public → (is_off v ≡ false) × (is_private v ≡ false)
private_of Visibility.off h = cc
private_of Visibility.private h = cc
private_of Visibility.public h = (refl, refl)

pub is_empty_iff : (t : Text) → (is_empty t ≡ false) ↔ (t ≢ [])
is_empty_iff [] = (λ h. cc, λ h. absurd (h refl))
is_empty_iff (c ∷ cs) = (λ h e. cc, λ h. refl)

module _ (p : Proxy) (seams : Seams) (listener_port : ℕ) where
  serve-forward :
      (i j : Instance) (port : ℕ)
      → serve p seams listener_port i ≡ forward j port
      → (i ≡ j) × (i.state ≡ State.running) × (target_port p seams listener_port i ≡ port)
  unfolding serve
  serve-forward i j port h = elim (Bool-cases (is_running i.state)) [
    | inl runs ↦
        let e : forward i (target_port p seams listener_port i) ≡ forward j port = rw runs at h in
        (cc, (is_running_iff i.state).0 runs, cc)
    | inr stopped ↦ absurd (page-ne-forward (rw stopped at h))
  ]
    where
      page-ne-forward : unavailable i ≡ forward j port → ⊥
      page-ne-forward e = cc

  admit-forward :
      (i j : Instance) (port : ℕ) (access : Access)
      → admit p seams listener_port i access ≡ forward j port
      → (access ≡ granted) × (serve p seams listener_port i ≡ forward j port)
  unfolding admit
  admit-forward i j port granted h = (refl, h)
  admit-forward i j port unauthenticated h = cc
  admit-forward i j port forbidden h = cc

  access_of-granted :
      (i : Instance)
      → access_of p seams i ≡ granted
      → (check : String → Access) × (seams.sessions ≡ some check) × (check i.uuid ≡ granted)
  unfolding access_of
  access_of-granted i h = elim (Option-cases seams.sessions) [
    | inl absent ↦ absurd (none-granted (rw absent at h))
    | inr (check, there) ↦ (check, there, rw there at h)
  ]
    where
      none-granted : unauthenticated ≡ granted → ⊥
      none-granted e = cc

  -- What a look-up and the tests after it have established when the request passes.
  abbrev pub Passed : Lookup → Instance → (port : ℕ) → Type 0
  Passed lookup i port =
      (lookup ≡ found i)
      × (i.visibility ≢ Visibility.off)
      × MayPass p seams listener_port i
      × (i.state ≡ State.running)
      × (target_port p seams listener_port i ≡ port)

  pub route_instance-forward :
      (lookup : Lookup) (j : Instance) (port : ℕ)
      → route_instance p seams listener_port lookup ≡ forward j port
      → Passed lookup j port
  unfolding route_instance
  route_instance-forward missing j port h = cc
  route_instance-forward failed j port h = cc
  route_instance-forward (found i) j port h = elim (Bool-cases (is_off i.visibility)) [
    | inl off ↦ absurd (page-ne-forward (rw off at h))
    | inr on ↦
        let h₁ = rw on at h in
        let closed = is_private i.visibility || not (nat_beq listener_port p.main_port) in
        elim (Bool-cases closed) [
          | inl asks ↦
              let (access, h₂) = admit-forward i j port (access_of p seams i) (rw asks at h₁) in
              let (same, runs, at_port) = serve-forward i j port h₂ in
              passed same on (inr (access_of-granted i access)) runs at_port
          | inr open_to_all ↦
              let (same, runs, at_port) = serve-forward i j port (rw open_to_all at h₁) in
              passed same on
                (inl (
                  public_of i.visibility on (ground (arith, open_to_all)),
                  ground (arith, open_to_all),
                ))
                runs at_port
        ]
  ]
    where
      page-ne-forward : not_found ≡ forward j port → ⊥
      page-ne-forward e = cc

      passed :
          i ≡ j
          → is_off i.visibility ≡ false
          → MayPass p seams listener_port i
          → i.state ≡ State.running
          → target_port p seams listener_port i ≡ port
          → Passed (found i) j port
      passed same on may runs at_port = rw (← same) (
        refl,
        λ off. absurd (ground (arith, is_off_iff i.visibility, on, off)),
        may,
        runs,
        at_port,
      )

  -- The other way: what is established lets the request pass.
  pub forward-route_instance :
      (i : Instance) (port : ℕ)
      → Passed (found i) i port
      → route_instance p seams listener_port (found i) ≡ forward i port
  unfolding route_instance serve
  forward-route_instance i port (_, published, may, runs, at_port) =
      let on : is_off i.visibility ≡ false = ground (arith, is_off_iff i.visibility, published) in
      let running = (is_running_iff i.state).1 runs in
      elim may [
        | inl (public, main) ↦
            let (_, open_to_all) = private_of i.visibility public in
            ground (arith, on, open_to_all, main, running, at_port)
        | inr (check, there, grants) ↦
            let access : access_of p seams i ≡ granted = unfold access_of in rw there grants in
            unfold admit in ground (arith, on, access, running, at_port)
      ]

  pub target_port-cases :
      (i : Instance) (port : ℕ)
      → (target_port p seams listener_port i ≡ port) ↔ (
          ((listener_port ≡ p.main_port) × (port ≡ effective_http_port i))
          ⊎ ((listener_port ≢ p.main_port) × (port ≡ listener_port)))
  unfolding target_port
  target_port-cases i port = elim (Bool-cases (nat_beq listener_port p.main_port)) [
    | inl main ↦ (
      λ h. inl (ground (arith, main), ground (arith, main, h)),
      λ h. elim h [
        | inl (_, e) ↦ ground (arith, main, e)
        | inr (high, _) ↦ absurd (high (ground (arith, main)))
      ],
    )
    | inr high ↦ (
      λ h. inr (λ e. ground (arith, high, e), ground (arith, high, h)),
      λ h. elim h [
        | inl (e, _) ↦ absurd (ground (arith, high, e))
        | inr (_, e) ↦ ground (arith, high, e)
      ],
    )
  ]
