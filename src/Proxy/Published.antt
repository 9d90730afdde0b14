-- ===== src/Proxy/Published.antt =====
-- An instance is reached under its name: crates/proxy/src/lib.rs with `reserved` of crates/config/src/lib.rs
-- and `valid_name` of crates/types/src/lib.rs.
use bento.Shared.{
  ℕ, true, false, ◌||◌, if◌then◌else◌, nat_beq, List, [], ◌∷◌, ◌++◌, none, some, ◌≡◌, ◌≢◌, refl,
  sym, ◌∙◌, ap, arith, ==_iff, contains, nat_eq, Bool-cases, inl, inr,
}
use bento.Shared.Texts.{Text, text_eq, lower, to_lower, trim_end, strip_suffix, strip_suffix_iff}
use bento.Types.{valid_name, label_char, all_label, starts_with_label}
use bento.Config.{Config, base_label, reserved}
use bento.Proxy.Host.{
  original_host, rsplit_once, strip_port, strip_host_port, named_host, request_host,
}
use bento.Proxy.{Proxy, Seams, route_instance, handle_connection}
use bento.Proxy.Reach.{route_host-IsNamed}

-- A domain as the proxy compares it: in lower case, without a port, a bracket or a dot at its end.
pub record IsNormal (domain : Text) : Type 0 where
  pub not_empty : domain ≢ []
  pub in_lower : to_lower domain ≡ domain
  pub no_port : contains domain b':' ≡ false
  pub no_dot_end : trim_end b'.' domain ≡ domain

to_lower-append : (s t : Text) → to_lower (s ++ t) ≡ to_lower s ++ to_lower t
unfolding to_lower
to_lower-append [] t = refl
to_lower-append (c ∷ s) t = cc (to_lower-append s t)

contains-append : (s t : Text) (c : ℕ) → contains (s ++ t) c ≡ (contains s c || contains t c)
contains-append [] t c = refl
contains-append (d ∷ s) t c = ground (arith, contains-append s t c)

trim_end-append : (c : ℕ) (s t : Text) → t ≢ [] → trim_end c t ≡ t → trim_end c (s ++ t) ≡ s ++ t
unfolding trim_end
trim_end-append c [] t some_left h = h
trim_end-append c (d ∷ s) t some_left h =
    rw (trim_end-append c s t some_left h) (keeps (s ++ t) (append-ne-nil s))
  where
    append-ne-nil : (s : Text) → s ++ t ≢ []
    append-ne-nil [] e = some_left e
    append-ne-nil (a ∷ s) e = cc

    keeps :
        (u : Text)
        → u ≢ []
        → (elim u as (λ (x : Text). Text) [
          | [] ↦ if nat_beq d c then [] else d ∷ []
          | e ∷ es ↦ d ∷ e ∷ es
        ])
          ≡ d ∷ u
    keeps [] h = absurd (h refl)
    keeps (e ∷ es) h = refl

rsplit_once-none : (c : ℕ) (t : Text) → contains t c ≡ false → rsplit_once c t ≡ none
unfolding rsplit_once
rsplit_once-none c [] h = refl
rsplit_once-none c (d ∷ t) h = ground (arith, h, rsplit_once-none c t)

-- What the shape of a name rules out.
all_label-plain :
    (name : Text)
    → all_label name ≡ true
    → (to_lower name ≡ name) × (contains name b':' ≡ false) × (contains name b'.' ≡ false)
unfolding all_label to_lower lower
all_label-plain [] h = (refl, refl, refl)
all_label-plain (c ∷ name) h =
    let (low, no_colon, no_dot) = all_label-plain name (ground (arith, h)) in
    (ground (arith, h, low), ground (arith, h, no_colon), ground (arith, h, no_dot))

strip_port-plain : (t : Text) → contains t b':' ≡ false → strip_port t ≡ t
unfolding strip_port
strip_port-plain t h = rw (rsplit_once-none b':' t h, strip_port) refl

-- The text of a host in normal form names itself.
request_host-normal :
    (c : ℕ) (host : Text)
    → nat_beq c b'[' ≡ false
    → IsNormal (c ∷ host)
    → request_host (record { host_header = some (c ∷ host); authority = none }) none ≡ c ∷ host
unfolding request_host named_host original_host strip_host_port
request_host-normal c host unbracketed normal =
    rw (unbracketed, strip_port-plain (c ∷ host) normal.no_port, normal.no_dot_end) normal.in_lower

-- A base domain one label under the instance domain has that label.
base_label-some :
    (cfg : Config) (c : ℕ) (name : Text)
    → strip_suffix (b'.' ∷ cfg.instance_domain) cfg.base_domain ≡ some (c ∷ name)
    → contains (c ∷ name) b'.' ≡ false
    → base_label cfg ≡ some (c ∷ name)
unfolding base_label
base_label-some cfg c name front one_label = rw (front, base_label) (rw one_label refl)

last-contained : (names : List Text) (name : Text) → contains (names ++ (name ∷ [])) name ≡ true
last-contained [] name = ground (arith, ==_iff name name)
last-contained (n ∷ names) name = ground (arith, last-contained names name)

-- That label is reserved.
reserved-label :
    (cfg : Config) (label : Text)
    → base_label cfg ≡ some label
    → contains (reserved cfg) label ≡ true
unfolding reserved
reserved-label cfg label e =
    rw (e, reserved)
      (elim (Bool-cases (contains cfg.reserved_names label)) [
        | inl listed ↦ rw (listed) listed
        | inr not_listed ↦ rw (not_listed) (last-contained cfg.reserved_names label)
      ])

-- So a name that is not reserved does not lead to the base domain.
reserved-base :
    (cfg : Config) (c : ℕ) (name : Text)
    → contains (c ∷ name) b'.' ≡ false
    → contains (reserved cfg) (c ∷ name) ≡ false
    → (c ∷ name) ++ (b'.' ∷ cfg.instance_domain) ≢ cfg.base_domain
reserved-base cfg c name one_label free e =
    let front =
      (strip_suffix_iff (b'.' ∷ cfg.instance_domain) cfg.base_domain (c ∷ name)).1 (sym e) in
    let taken = reserved-label cfg (c ∷ name) (base_label-some cfg c name front one_label) in
    true-ne-false (sym taken ∙ free)
  where
    true-ne-false : true ≡ false → ⊥
    true-ne-false h = cc

host-IsNormal :
    (c : ℕ) (name domain : Text)
    → all_label (c ∷ name) ≡ true
    → IsNormal domain
    → IsNormal ((c ∷ name) ++ (b'.' ∷ domain))
host-IsNormal c name domain shape normal =
    let (low, no_colon, no_dot) = all_label-plain (c ∷ name) shape in
    let dotted : Text = b'.' ∷ domain in
    record {
      not_empty = λ e. cc;
      in_lower =
          to_lower-append (c ∷ name) dotted
          ∙ (rw low (rw (to_lower-dot domain normal.in_lower) refl));
      no_port = ground (arith, contains-append (c ∷ name) dotted b':', no_colon, normal.no_port);
      no_dot_end =
          trim_end-append b'.' (c ∷ name) dotted (λ e. cc)
            (trim_end-append b'.' (b'.' ∷ []) domain normal.not_empty normal.no_dot_end);
    }
  where
    to_lower-dot : (d : Text) → to_lower d ≡ d → to_lower (b'.' ∷ d) ≡ b'.' ∷ d
    to_lower-dot d h = unfold to_lower lower in ap (λ t. b'.' ∷ t) h

-- A request whose Host header is a valid name below the instance domain is answered by what the name's
-- look-up gives, on every port and without a server name; if the configured instance domain is in normal
-- form, the proxy has the configured domains, and the name is not among the reserved ones.
pub handle_connection-published :
    (cfg : Config) (p : Proxy) (seams : Seams) (listener_port : ℕ) (name : Text)
    → p.base_domain ≡ cfg.base_domain
    → p.instance_domain ≡ cfg.instance_domain
    → IsNormal cfg.instance_domain
    → valid_name name ≡ true
    → contains (reserved cfg) name ≡ false
    → handle_connection p seams listener_port
        (record { host_header = some (name ++ (b'.' ∷ cfg.instance_domain)); authority = none })
        none
      ≡ route_instance p seams listener_port (seams.instance_by_name name)
unfolding handle_connection valid_name
handle_connection-published cfg p seams listener_port [] base domain normal valid free =
    absurd (empty valid)
  where
    empty : valid_name [] ≡ true → ⊥
    empty h = unfold starts_with_label in cc
handle_connection-published cfg p seams listener_port (c ∷ name) base domain normal valid free =
    let shape : all_label (c ∷ name) ≡ true = ground (arith, valid) in
    let (_, _, one_label) = all_label-plain (c ∷ name) shape in
    let first : label_char c ≡ true = unfold starts_with_label in ground (arith, valid) in
    let host = (c ∷ name) ++ (b'.' ∷ cfg.instance_domain) in
    let at_host =
      request_host-normal c (name ++ (b'.' ∷ cfg.instance_domain)) (ground (arith, first))
        (host-IsNormal c name cfg.instance_domain shape normal) in
    rw at_host (
      route_host-IsNamed p seams listener_port host (c ∷ name) (record {
        not_base = λ e. reserved-base cfg c name one_label free (e ∙ base);
        spelled = ap (λ d. (c ∷ name) ++ (b'.' ∷ d)) (sym domain);
        not_empty = λ e. cc;
        one_label = one_label;
      }))
