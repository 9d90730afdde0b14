-- ===== src/Config.antt =====
-- crates/config/src/lib.rs: the domains of a deployment and the names that an instance may not take. The
-- other settings, and the TOML text that they are read from, are left out.
use bento.Shared.{if◌then◌else◌, List, [], ◌∷◌, ◌++◌, Option, none, some, contains, nat_eq}
use bento.Shared.Texts.{Text, text_eq, strip_suffix}

pub record Config : Type 0 where
  pub base_domain : Text
  pub instance_domain : Text
  pub reserved_names : List Text

-- `parse`: an instance domain that is left out is the base domain.
unfoldable pub resolve_domain : (base_domain : Text) → Option Text → Text
resolve_domain base_domain none = base_domain
resolve_domain base_domain (some domain) = domain

-- The label of a base domain that lies one label under the instance domain.
unfoldable pub base_label : Config → Option Text
base_label cfg = elim (strip_suffix (b'.' ∷ cfg.instance_domain) cfg.base_domain) [
  | none ↦ none
  | some [] ↦ none
  | some (c ∷ cs) ↦ if contains (c ∷ cs) b'.' then none else some (c ∷ cs)
]

unfoldable pub reserved : Config → List Text
reserved cfg = elim (base_label cfg) [
  | none ↦ cfg.reserved_names
  | some label ↦
      if contains cfg.reserved_names label
      then cfg.reserved_names
      else cfg.reserved_names ++ (label ∷ [])
]
