-- ===== src/Proxy.antt =====
-- crates/proxy/src/lib.rs: which requests reach an instance, and what is sent to it. A request's body is
-- left out, and a page is the outcome that it stands for. What the proxy is given by the caller (the look-up
-- of names, the check of credentials, the control plane, the recorder and the transport) is a parameter,
-- as is the HTTP library, whose values and names of headers are made and read by it.
pub mod Host
pub mod Headers
pub mod Connection
pub mod Reach
pub mod Hidden
pub mod Published
pub mod Listeners
pub mod Trust
mod Tests
use bento.Shared.{
  ℕ, ◌+◌, ◌-◌, zero, suc, Bool, true, false, ◌&&◌, ◌||◌, not, if◌then◌else◌, ltb, leb, nat_beq,
  String, List, [], ◌∷◌, ◌++◌, Option, none, some, ◌==◌, contains, nat_eq,
}
use bento.Shared.Result.{Result, ok, err}
use bento.Shared.Parse.{chars}
use bento.Types.{Instance, State, Visibility, effective_http_port}
use bento.Shared.Texts.{Text, text_eq, to_lower, trim_end, strip_suffix}
use bento.Proxy.Host.{RequestHost, request_host, original_host, format_authority}
use bento.Proxy.Headers.{Http, HeaderMap, upgrade_protocol, prepare, sent_headers, received_headers}

abbrev pub default_port : ℕ
default_port = 443

abbrev pub high_port_min : ℕ
high_port_min = 3000

abbrev pub high_port_max : ℕ
high_port_max = 9999

pub data Access : Type 0 where
  unauthenticated forbidden granted : Access

-- The answer of `instance_by_name`.
pub data Lookup : Type 0 where
  found : Instance → Lookup
  missing failed : Lookup

pub data Error : Type 0 where
  empty_base_domain : Error
  empty_high_port_range : (min max : ℕ) → Error
  main_port_in_high_range : (main min max : ℕ) → Error

-- The settings of a builder; the login URL, which names a page only, is left out.
pub record ProxyBuilder : Type 0 where
  pub base_domain : Text
  pub instance_domain : Option Text
  pub main_port : ℕ
  pub high_min : ℕ
  pub high_max : ℕ

pub record Proxy : Type 0 where
  pub base_domain : Text
  pub instance_domain : Text
  pub main_port : ℕ
  pub high_min : ℕ
  pub high_max : ℕ

unfoldable pub builder : Text → ProxyBuilder
builder base_domain = record {
  base_domain = base_domain;
  instance_domain = none;
  main_port = default_port;
  high_min = high_port_min;
  high_max = high_port_max;
}

-- Zero leaves a setting as it is.
unfoldable pub with_ports : (main high_min high_max : ℕ) → ProxyBuilder → ProxyBuilder
with_ports main high_min high_max b = record b {
  main_port = if nat_beq main 0 then b.main_port else main;
  high_min = if nat_beq high_min 0 then b.high_min else high_min;
  high_max = if nat_beq high_max 0 then b.high_max else high_max;
}

unfoldable pub instance_domain_or : (base_domain : Text) → Option Text → Text
instance_domain_or base_domain none = base_domain
instance_domain_or base_domain (some []) = base_domain
instance_domain_or base_domain (some (c ∷ cs)) = c ∷ cs

-- `to_ascii_lowercase`, then `trim_end_matches('.')`.
unfoldable pub normal_domain : Text → Text
normal_domain domain = trim_end b'.' (to_lower domain)

unfoldable pub build : ProxyBuilder → Result Error Proxy
build b =
    let base_domain = normal_domain b.base_domain in
    if base_domain == []
    then err empty_base_domain
    else if ltb b.high_max b.high_min
    then err (empty_high_port_range b.high_min b.high_max)
    else if leb b.high_min b.main_port && leb b.main_port b.high_max
    then err (main_port_in_high_range b.main_port b.high_min b.high_max)
    else ok (record {
      base_domain = base_domain;
      instance_domain = instance_domain_or base_domain b.instance_domain;
      main_port = b.main_port;
      high_min = b.high_min;
      high_max = b.high_max;
    })

-- `first..=last`, from the number of ports in it.
unfoldable pub port_range : (rounds first : ℕ) → List ℕ
port_range zero first = []
port_range (suc rounds) first = first ∷ port_range rounds (first + 1)

-- The caller's side of the proxy, for one request.
pub record Seams : Type 0 where
  pub instance_by_name : (name : Text) → Lookup
  pub sessions : Option ((uuid : String) → Access)
  pub has_control : Bool
  pub has_last_seen : Bool

-- What becomes of a request before anything is sent.
pub data Route : Type 0 where
  control not_found internal_error redirect_to_login : Route
  unavailable : Instance → Route
  forward : Instance → (target_port : ℕ) → Route

abbrev pub is_off : Visibility → Bool
is_off Visibility.off = true
is_off _ = false

abbrev pub is_private : Visibility → Bool
is_private Visibility.private = true
is_private _ = false

abbrev pub is_running : State → Bool
is_running State.running = true
is_running _ = false

abbrev pub is_empty : Text → Bool
is_empty [] = true
is_empty (c ∷ cs) = false

module _ (p : Proxy) (seams : Seams) where
  unfoldable pub access_of : Instance → Access
  access_of i = elim seams.sessions [ none ↦ Access.unauthenticated | some check ↦ check i.uuid ]

  unfoldable pub target_port : (listener_port : ℕ) → Instance → ℕ
  target_port listener_port i =
      if nat_beq listener_port p.main_port then effective_http_port i else listener_port

  -- The end of the handler, for a caller that may see the instance.
  unfoldable pub serve : (listener_port : ℕ) → Instance → Route
  serve listener_port i =
      if is_running i.state then forward i (target_port listener_port i) else unavailable i

  unfoldable pub admit : (listener_port : ℕ) → Instance → Access → Route
  admit listener_port i Access.granted = serve listener_port i
  admit listener_port i Access.unauthenticated = redirect_to_login
  admit listener_port i Access.forbidden = not_found

  unfoldable pub route_instance : (listener_port : ℕ) → Lookup → Route
  route_instance listener_port missing = not_found
  route_instance listener_port failed = internal_error
  route_instance listener_port (found i) =
      if is_off i.visibility
      then not_found
      else if is_private i.visibility || not (nat_beq listener_port p.main_port)
      then admit listener_port i (access_of i)
      else serve listener_port i

  unfoldable pub route_name : (listener_port : ℕ) → Option Text → Route
  route_name listener_port none = not_found
  route_name listener_port (some name) =
      if is_empty name || contains name b'.'
      then not_found
      else route_instance listener_port (seams.instance_by_name name)

  unfoldable pub route_host : (listener_port : ℕ) → (host : Text) → Route
  route_host listener_port host =
      if host == p.base_domain
      then if nat_beq listener_port p.main_port && seams.has_control then control else not_found
      else route_name listener_port (strip_suffix (b'.' ∷ p.instance_domain) host)

  -- `handle_connection`, up to the point where the request is passed on.
  unfoldable pub handle_connection : (listener_port : ℕ) → RequestHost → Option Text → Route
  handle_connection listener_port request server_name =
      route_host listener_port (request_host request server_name)

  -- The instances whose last request is recorded.
  unfoldable pub touched : Route → List String
  touched (forward i port) = if seams.has_last_seen then i.uuid ∷ [] else []
  touched _ = []

unfoldable pub ports : Proxy → List ℕ
ports p = p.main_port ∷ port_range (p.high_max + 1 - p.high_min) p.high_min

-- What goes out on the wire for a request that is passed on, and what comes back.
pub record Sent : Type 0 where
  pub authority : Text
  pub headers : HeaderMap

pub record Answer : Type 0 where
  pub switching : Bool
  pub headers : HeaderMap

pub data Reply : Type 0 where
  page : Route → Reply
  relayed : (headers : HeaderMap) → Reply

module _ (http : Http) (is_uri : Text → Bool) (write_port : ℕ → Text)
    (send : Sent → Option Answer) where
  unfoldable pub relay : Instance → (requested : Option Text) → Option Answer → Reply
  relay i requested none = page (unavailable i)
  relay i requested (some answer) =
      relayed (received_headers http requested answer.switching answer.headers)

  -- `forward`
  unfoldable pub forward_request :
      RequestHost → (remote : Text) → (tls : Bool) → HeaderMap → Instance → ℕ → Reply
  forward_request request remote tls headers i target_port =
      let target = format_authority (chars i.address) (write_port target_port) in
      if is_uri target
      then relay i (upgrade_protocol http headers) (
          send (record {
            authority = target;
            headers = sent_headers http (prepare http (original_host request) remote tls) headers;
          }))
      else page (unavailable i)
