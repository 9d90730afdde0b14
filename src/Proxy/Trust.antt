-- ===== src/Proxy/Trust.antt =====
-- The headers that leave the proxy (crates/proxy/src/lib.rs).
use bento.Shared.{
  ◌⊎◌, Bool, true, false, ◌||◌, String, List, [], ◌∷◌, Option, none, some, ◌≡◌, contains, string_eq,
}
use bento.Shared.Texts.{Text}
use bento.Proxy.Connection.{IsConnectionOption}
use bento.Proxy.Headers.{
  Http, HeaderMap, get_all, upgrade_protocol, connection_headers, hop_by_hop,
  remove_hop_by_hop_headers, upgrading, forwarding, scheme, prepare, sent_headers,
}

abbrev pub values : Option Text → List Text
values none = []
values (some v) = v ∷ []

-- The headers that the proxy writes itself.
abbrev pub written : List String
written =
    "x-forwarded-for" ∷ "x-forwarded-proto" ∷ "x-forwarded-host" ∷ "host" ∷ "connection" ∷ "upgrade"
    ∷ []

-- The headers of a client that never go on.
abbrev pub never_sent : List String
never_sent =
    "forwarded" ∷ "x-forwarded-for" ∷ "x-forwarded-host" ∷ "x-forwarded-proto" ∷ "connection"
    ∷ "proxy-connection" ∷ "keep-alive" ∷ "proxy-authenticate" ∷ "proxy-authorization" ∷ "te"
    ∷ "trailer" ∷ "transfer-encoding" ∷ "upgrade" ∷ []

module _ (http : Http) (host remote : Text) (tls : Bool) (headers : HeaderMap) where
  abbrev pub sent : HeaderMap
  sent = sent_headers http (prepare http host remote tls) headers

  abbrev kept_on : HeaderMap
  kept_on = upgrading (upgrade_protocol http headers) (remove_hop_by_hop_headers http headers)

  -- What is stripped: the forwarding headers, the hop-by-hop ones, and those that Connection names.
  abbrev stripped : String → Bool
  stripped name =
      contains forwarding name
      || (contains hop_by_hop name || contains (connection_headers http headers) name)

  -- What an instance may rely on in the headers that reach it.
  pub record IsTrusted : Type 0 where
    pub forwarded_for : get_all "x-forwarded-for" sent ≡ values (http.from_str remote)
    pub forwarded_host : get_all "x-forwarded-host" sent ≡ values (http.from_str host)
    pub forwarded_proto : get_all "x-forwarded-proto" sent ≡ scheme tls ∷ []
    pub stripped_off :
        (name : String)
        → contains written name ≡ false
        → (contains never_sent name ≡ true) ⊎ IsConnectionOption http headers name
        → get_all name sent ≡ []
    pub others :
        (name : String)
        → contains written name ≡ false
        → contains never_sent name ≡ false
        → ¬ IsConnectionOption http headers name
        → get_all name sent ≡ get_all name headers
