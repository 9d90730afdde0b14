-- ===== src/Proxy/Headers.antt =====
-- crates/proxy/src/lib.rs: the headers of a request that is passed on, and of its response. A header map is
-- the list of its names, which are in lower case, with their values.
use bento.Shared.{
  Bool, true, false, ◌&&◌, ◌||◌, if◌then◌else◌, String, List, [], ◌∷◌, ◌++◌, Option, none, some,
  ◌==◌, string_eq,
}
use bento.Shared.Parse.{chars, split}
use bento.Shared.Texts.{Text, text_eq, text_beq, to_lower, trim}

abbrev pub HeaderMap : Type 0
HeaderMap = List (String × Text)

-- The HTTP library: the text of a value, the value of a text, and the name that a text spells.
pub record Http : Type 0 where
  pub to_str : Text → Option Text
  pub from_str : Text → Option Text
  pub name_of : Text → Option String

unfoldable pub get_all : String → HeaderMap → List Text
get_all name [] = []
get_all name ((n, v) ∷ headers) =
    if n == name then v ∷ get_all name headers else get_all name headers

unfoldable pub get : String → HeaderMap → Option Text
get name [] = none
get name ((n, v) ∷ headers) = if n == name then some v else get name headers

unfoldable pub remove : String → HeaderMap → HeaderMap
remove name [] = []
remove name ((n, v) ∷ headers) =
    if n == name then remove name headers else (n, v) ∷ remove name headers

-- Takes the place of the values that the name had.
unfoldable pub insert : String → Text → HeaderMap → HeaderMap
insert name v headers = remove name headers ++ ((name, v) ∷ [])

unfoldable pub insert_if : String → Option Text → HeaderMap → HeaderMap
insert_if name none headers = headers
insert_if name (some v) headers = insert name v headers

unfoldable pub remove_all : List String → HeaderMap → HeaderMap
remove_all [] headers = headers
remove_all (name ∷ names) headers = remove_all names (remove name headers)

abbrev pub connection : String
connection = "connection"

abbrev pub upgrade : String
upgrade = "upgrade"

-- The tokens of the values that are texts.
unfoldable pub tokens : Http → List Text → List Text
tokens http [] = []
tokens http (v ∷ values) = elim (http.to_str v) [
  | none ↦ tokens http values
  | some text ↦ split b',' text ++ tokens http values
]

unfoldable pub any_upgrade : List Text → Bool
any_upgrade [] = false
any_upgrade (token ∷ more) = text_beq (to_lower (trim token)) (chars "upgrade") || any_upgrade more

unfoldable pub upgrade_protocol : Http → HeaderMap → Option Text
upgrade_protocol http headers =
    if any_upgrade (tokens http (get_all connection headers)) then get upgrade headers else none

unfoldable pub named : Http → List Text → List String
named http [] = []
named http (token ∷ more) = elim (http.name_of (trim token)) [
  | none ↦ named http more
  | some name ↦ name ∷ named http more
]

-- The headers that the Connection header names.
unfoldable pub connection_headers : Http → HeaderMap → List String
connection_headers http headers = named http (tokens http (get_all connection headers))

abbrev pub hop_by_hop : List String
hop_by_hop =
    "connection" ∷ "proxy-connection" ∷ "keep-alive" ∷ "proxy-authenticate" ∷ "proxy-authorization"
    ∷ "te" ∷ "trailer" ∷ "transfer-encoding" ∷ "upgrade" ∷ []

unfoldable pub remove_hop_by_hop_headers : Http → HeaderMap → HeaderMap
remove_hop_by_hop_headers http headers =
    remove_all hop_by_hop (remove_all (connection_headers http headers) headers)

-- An upgrade that goes on to the other side.
unfoldable pub upgrading : Option Text → HeaderMap → HeaderMap
upgrading none headers = headers
upgrading (some protocol) headers =
    insert upgrade protocol (insert connection (chars "upgrade") headers)

abbrev pub forwarding : List String
forwarding = "forwarded" ∷ "x-forwarded-for" ∷ "x-forwarded-host" ∷ "x-forwarded-proto" ∷ []

abbrev pub scheme : Bool → Text
scheme true = chars "https"
scheme false = chars "http"

unfoldable pub set_host : Option Text → HeaderMap → HeaderMap
set_host none headers = headers
set_host (some host) headers = insert "x-forwarded-host" host (insert "host" host headers)

-- What `forward` does to the headers before they are sent.
unfoldable pub prepare : Http → (original_host remote : Text) → (tls : Bool) → HeaderMap → HeaderMap
prepare http original_host remote tls headers = insert_if "x-forwarded-for" (http.from_str remote) (
    insert "x-forwarded-proto" (scheme tls)
      (set_host (http.from_str original_host) (remove_all forwarding headers)))

-- The request's side of `send_upgradable`.
unfoldable pub sent_headers : Http → (HeaderMap → HeaderMap) → HeaderMap → HeaderMap
sent_headers http prepare headers =
    prepare (upgrading (upgrade_protocol http headers) (remove_hop_by_hop_headers http headers))

abbrev pub same_text : Option Text → Option Text → Bool
same_text none none = true
same_text (some s) (some t) = text_beq s t
same_text _ _ = false

-- The upgrade that both sides agree on.
unfoldable pub agreed : Option Text → (switching : Bool) → Option Text → Option Text
agreed none switching answered = none
agreed (some protocol) switching answered =
    if switching && same_text answered (some protocol) then some protocol else none

-- The response's side of `send_upgradable`, for the upgrade that the request asked for.
unfoldable pub received_headers :
    Http → (requested : Option Text) → (switching : Bool) → HeaderMap → HeaderMap
received_headers http requested switching headers =
    upgrading (agreed requested switching (upgrade_protocol http headers))
      (remove_hop_by_hop_headers http headers)
