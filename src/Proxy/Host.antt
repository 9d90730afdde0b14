-- ===== src/Proxy/Host.antt =====
-- crates/proxy/src/lib.rs: the host that a request names, and the authority of its target. A request is the
-- text of its Host header, where it has one that is a text, and the authority of its URI.
use bento.Shared.{
  ℕ, Bool, ◌&&◌, not, if◌then◌else◌, nat_beq, [], ◌∷◌, ◌++◌, Option, none, some, contains, nat_eq,
}
use bento.Shared.Texts.{Text, to_lower, trim_end, is_u16}

pub record RequestHost : Type 0 where
  pub host_header : Option Text
  pub authority : Option Text

unfoldable pub original_host : RequestHost → Text
original_host request = elim request.host_header [
  | some host ↦ host
  | none ↦ elim request.authority [ some authority ↦ authority | none ↦ [] ]
]

-- The text up to the first such character, where there is one.
unfoldable pub before : (separator : ℕ) → Text → Option Text
before separator [] = none
before separator (c ∷ cs) =
    if nat_beq c separator
    then some []
    else elim (before separator cs) [ none ↦ none | some front ↦ some (c ∷ front) ]

-- `rsplit_once`: the texts before and after the last such character.
unfoldable pub rsplit_once : (separator : ℕ) → Text → Option (Text × Text)
rsplit_once separator [] = none
rsplit_once separator (c ∷ cs) = elim (rsplit_once separator cs) [
  | some (front, back) ↦ some (c ∷ front, back)
  | none ↦ if nat_beq c separator then some ([], cs) else none
]

unfoldable pub strip_port : Text → Text
strip_port host = elim (rsplit_once b':' host) [
  | none ↦ host
  | some (name, port) ↦ if not (contains name b':') && is_u16 port then name else host
]

unfoldable pub strip_host_port : Text → Text
strip_host_port [] = strip_port []
strip_host_port (c ∷ cs) =
    if nat_beq c b'['
    then elim (before b']' cs) [ none ↦ c ∷ cs | some name ↦ name ]
    else strip_port (c ∷ cs)

unfoldable pub named_host : RequestHost → Option Text → Text
named_host request none = original_host request
named_host request (some []) = original_host request
named_host request (some (c ∷ cs)) = c ∷ cs

unfoldable pub request_host : RequestHost → (server_name : Option Text) → Text
request_host request server_name =
    to_lower (trim_end b'.' (strip_host_port (named_host request server_name)))

unfoldable pub starts_bracketed : Text → Bool
starts_bracketed [] = Bool.false
starts_bracketed (c ∷ cs) = nat_beq c b'['

-- The text of a port is written by the standard library.
unfoldable pub format_authority : (address port : Text) → Text
format_authority address port =
    if contains address b':' && not (starts_bracketed address)
    then (b'[' ∷ address) ++ (b']' ∷ b':' ∷ port)
    else address ++ (b':' ∷ port)
