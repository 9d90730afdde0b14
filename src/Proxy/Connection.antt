-- ===== src/Proxy/Connection.antt =====
-- The headers that a Connection header names (crates/proxy/src/lib.rs).
use mathlib.Core.List.{Memᴰ}
use mathlib.Core.List.Memᴰ
use bento.Shared.{
  ◌≡◌, ◌↔◌, refl, arith, true, String, List, [], ◌∷◌, ◌++◌, some, contains, string_eq, ◌==◌, ==_iff,
  ==_refl, inl, inr, ◌⊎◌, Bool-cases, Option-cases, subst,
}
use bento.Shared.Parse.{split}
use bento.Shared.Texts.{Text, trim}
use bento.Proxy.Headers.{Http, HeaderMap, get_all, tokens, named, connection_headers}

-- A part of one of the values, between commas and without the blanks around it, is the name of the header.
abbrev pub IsConnectionOption : Http → HeaderMap → String → Type 0
IsConnectionOption http headers name =
    (value : Text) × (text : Text) × (part : Text) × Memᴰ value (get_all "connection" headers)
    × (http.to_str value ≡ some text)
    × Memᴰ part (split b',' text)
    × (http.name_of (trim part) ≡ some name)

Mem-append : {A : Type 0} (a : A) (xs ys : List A) → Memᴰ a (xs ++ ys) ↔ (Memᴰ a xs ⊎ Memᴰ a ys)
Mem-append a [] ys =
    (λ m. inr m, λ m. elim m [ inl empty ↦ absurd (Memᴰ.not-nil empty) | inr there ↦ there ])
Mem-append a (x ∷ xs) ys = (
  λ m. elim (Memᴰ.cases_cons m) [
    | inl here ↦ inl (Memᴰ.head here)
    | inr rest ↦ elim ((Mem-append a xs ys).0 rest) [
      | inl left ↦ inl (Memᴰ.tail left)
      | inr right ↦ inr right
    ]
  ],
  λ m. elim m [
    | inl left ↦ elim (Memᴰ.cases_cons left) [
      | inl here ↦ Memᴰ.head here
      | inr rest ↦ Memᴰ.tail ((Mem-append a xs ys).1 (inl rest))
    ]
    | inr right ↦ Memᴰ.tail ((Mem-append a xs ys).1 (inr right))
  ],
)

module _ (http : Http) where
  tokens_iff :
      (values : List Text) (part : Text)
      → Memᴰ part (tokens http values) ↔ (
          (value : Text) × (text : Text) × Memᴰ value values
          × (http.to_str value ≡ some text)
          × Memᴰ part (split b',' text))
  unfolding tokens
  tokens_iff [] part =
      (λ m. absurd (Memᴰ.not-nil m), λ (value, text, listed, _, _). absurd (Memᴰ.not-nil listed))
  tokens_iff (v ∷ values) part = elim (Option-cases (http.to_str v)) [
    | inl not_text ↦
        rw (tokens, not_text)
          (
            λ m. later ((tokens_iff values part).0 m),
            λ (value, text, listed, is_text, within). elim (Memᴰ.cases_cons listed) [
              | inl here ↦
                  absurd
                    (ground (arith, not_text, subst (λ u. http.to_str u ≡ some text) here is_text))
              | inr rest ↦ (tokens_iff values part).1 (value, text, rest, is_text, within)
            ],
          )
    | inr (s, is_s) ↦
        rw (tokens, is_s)
          (
            λ m. elim ((Mem-append part (split b',' s) (tokens http values)).0 m) [
              | inl within ↦ (v, s, Memᴰ.head refl, is_s, within)
              | inr rest ↦ later ((tokens_iff values part).0 rest)
            ],
            λ (value, text, listed, is_text, within).
                (Mem-append part (split b',' s) (tokens http values)).1
                  (elim (Memᴰ.cases_cons listed) [
                    | inl here ↦
                        let same : text ≡ s =
                          ground
                            (arith, is_s, subst (λ u. http.to_str u ≡ some text) here is_text) in
                        inl (subst (λ t. Memᴰ part (split b',' t)) same within)
                    | inr rest ↦
                        inr ((tokens_iff values part).1 (value, text, rest, is_text, within))
                  ]),
          )
  ]
    where
      later :
          ((value : Text) × (text : Text) × Memᴰ value values
            × (http.to_str value ≡ some text)
            × Memᴰ part (split b',' text))
          → (value : Text) × (text : Text) × Memᴰ value (v ∷ values)
            × (http.to_str value ≡ some text)
            × Memᴰ part (split b',' text)
      later (value, text, listed, is_text, within) =
          (value, text, Memᴰ.tail listed, is_text, within)

  named_iff :
      (parts : List Text) (name : String)
      → (contains (named http parts) name ≡ true)
        ↔ ((part : Text) × Memᴰ part parts × (http.name_of (trim part) ≡ some name))
  unfolding named
  named_iff [] name = (λ h. cc, λ (part, listed, _). absurd (Memᴰ.not-nil listed))
  named_iff (p ∷ parts) name = (
    λ h. elim (Option-cases (http.name_of (trim p))) [
      | inl no_name ↦ later ((named_iff parts name).0 (ground (arith, no_name, h)))
      | inr (n, is_n) ↦ elim (Bool-cases (n == name)) [
        | inl same ↦ (p, Memᴰ.head refl, ground (arith, is_n, ==_iff n name, same))
        | inr other ↦ later ((named_iff parts name).0 (ground (arith, is_n, other, h)))
      ]
    ],
    λ (part, listed, is_name). elim (Memᴰ.cases_cons listed) [
      | inl here ↦
          let first : http.name_of (trim p) ≡ some name =
            subst (λ u. http.name_of (trim u) ≡ some name) here is_name in
          ground (arith, first, ==_refl name)
      | inr rest ↦
          let there = (named_iff parts name).1 (part, rest, is_name) in
          elim (Option-cases (http.name_of (trim p))) [
            | inl no_name ↦ ground (arith, no_name, there)
            | inr (n, is_n) ↦ ground (arith, is_n, there)
          ]
    ],
  )
    where
      later :
          ((part : Text) × Memᴰ part parts × (http.name_of (trim part) ≡ some name))
          → (part : Text) × Memᴰ part (p ∷ parts) × (http.name_of (trim part) ≡ some name)
      later (part, listed, is_name) = (part, Memᴰ.tail listed, is_name)

  pub connection_headers_iff :
      (headers : HeaderMap) (name : String)
      → (contains (connection_headers http headers) name ≡ true)
        ↔ IsConnectionOption http headers name
  unfolding connection_headers
  connection_headers_iff headers name = (
    λ h.
        let (part, listed, is_name) =
          (named_iff (tokens http (get_all "connection" headers)) name).0 h in
        let (value, text, there, is_text, within) =
          (tokens_iff (get_all "connection" headers) part).0 listed in
        (value, text, part, there, is_text, within, is_name),
    λ (value, text, part, there, is_text, within, is_name).
        (named_iff (tokens http (get_all "connection" headers)) name).1 (
          part,
          (tokens_iff (get_all "connection" headers) part).1 (value, text, there, is_text, within),
          is_name,
        ),
  )
