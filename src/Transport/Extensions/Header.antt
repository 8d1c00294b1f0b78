-- ===== src/Transport/Extensions/Header.antt =====
-- The header that names extensions: written by `FormatExtensionHeader`, read by
-- `ParseExtensionHeader` (transport/extension.go).
use Prim.Native.Char.{Char, code}
use Prim.Native.String.append
use atlasic.Prelude.{
  String, Bool, true, false, ◌≡◌, refl, sym, ap, ◌∙◌, List, [], ◌∷◌, ◌==◌, string_eq, nat_eq,
  Bool-cases, inl, inr, eq_iff,
}
use atlasic.Prelude.Texts.{
  concat, split, is_unicode_space, trim_left_of, trim_right_of, trim_unicode_space,
}
use atlasic.Transport.Extensions.{trimmed_parts, parse_extension_header, format_extension_header}

-- No comma and none of what Unicode has as white space.
abbrev pub AllPlain : String → Type 0
AllPlain String.[] = Unit
AllPlain (String.◌∷◌ c s) =
    (nat_eq (code c) 44 ≡ false) × (is_unicode_space (code c) ≡ false) × AllPlain s

trim_right-plain : (s : String) → AllPlain s → trim_right_of is_unicode_space s ≡ s
trim_right-plain String.[] plain = refl
trim_right-plain (String.◌∷◌ c s) (no_comma, no_space, plain) =
    rw (trim_right-plain s plain, no_space) refl

trim_left-plain : (s : String) → AllPlain s → trim_left_of is_unicode_space s ≡ s
trim_left-plain String.[] plain = refl
trim_left-plain (String.◌∷◌ c s) (no_comma, no_space, plain) = rw no_space refl

split-plain : (s : String) → AllPlain s → split 44 s ≡ s ∷ []
split-plain String.[] plain = refl
split-plain (String.◌∷◌ c s) (no_comma, no_space, plain) = rw (no_comma, split-plain s plain) refl

-- Up to a comma.
split-comma :
    (s : String) (c : Char) (rest : String)
    → AllPlain s
    → nat_eq (code c) 44 ≡ true
    → split 44 (concat s (String.◌∷◌ c rest)) ≡ s ∷ split 44 rest
split-comma String.[] c rest plain comma = rw (append.nil (String.◌∷◌ c rest), comma) refl
split-comma (String.◌∷◌ d s) c rest (no_comma, no_space, plain) comma =
    rw (append.cons d s (String.◌∷◌ c rest), no_comma, split-comma s c rest plain comma) refl

comma_space : (rest : String) → concat ", " rest ≡ String.◌∷◌ "," (String.◌∷◌ " " rest)
comma_space rest =
    append.cons "," " " rest
    ∙ ap (String.◌∷◌ ",") (append.cons " " "" rest ∙ ap (String.◌∷◌ " ") (append.nil rest))

abbrev spaced : Bool → String → String
spaced true s = String.◌∷◌ " " s
spaced false s = s

trim_space-spaced :
    (lead : Bool) (s : String)
    → AllPlain s
    → (s == "") ≡ false
    → trim_unicode_space (spaced lead s) ≡ s
trim_space-spaced true s plain some_ =
    rw (trim_right-plain s plain, some_, trim_left-plain s plain) refl
trim_space-spaced false s plain some_ = rw (trim_right-plain s plain, trim_left-plain s plain) refl

-- The first part, with or without a space before it.
trimmed-first :
    (lead : Bool) (s uri : String) (parts : List String)
    → split 44 s ≡ uri ∷ parts
    → AllPlain uri
    → (uri == "") ≡ false
    → trimmed_parts (split 44 (spaced lead s)) ≡ uri ∷ trimmed_parts parts
trimmed-first true s uri parts splits plain some_ =
    rw (splits, trim_space-spaced true uri plain some_, some_) refl
trimmed-first false s uri parts splits plain some_ =
    rw (splits, trim_space-spaced false uri plain some_, some_) refl

abbrev pub AllUris : List String → Type 0
AllUris [] = Unit
AllUris (uri ∷ uris) = ((uri == "") ≡ false) × AllPlain uri × AllUris uris

trimmed-format :
    (lead : Bool) (uri : String) (uris : List String)
    → AllUris (uri ∷ uris)
    → trimmed_parts (split 44 (spaced lead (format_extension_header (uri ∷ uris)))) ≡ uri ∷ uris
trimmed-format lead uri [] (some_, plain, all) =
    trimmed-first lead uri uri [] (split-plain uri plain) plain some_
trimmed-format lead uri (next ∷ uris) (some_, plain, all) =
    let rest = format_extension_header (next ∷ uris) in
    let splits : split 44 (concat uri (concat ", " rest)) ≡ uri ∷ split 44 (spaced true rest) =
      ap (λ tail. split 44 (concat uri tail)) (comma_space rest)
      ∙ split-comma uri "," (String.◌∷◌ " " rest) plain refl in
    trimmed-first lead (concat uri (concat ", " rest)) uri (split 44 (spaced true rest)) splits
      plain some_
    ∙ ap (◌∷◌ uri) (trimmed-format true next uris all)

-- URIs that are not empty and have no comma and no white space (of Unicode) are read back from the header that
-- names them, in their order.
pub parse_extension_header-format_extension_header :
    (uris : List String)
    → AllUris uris
    → parse_extension_header (format_extension_header uris) ≡ uris
unfolding parse_extension_header
parse_extension_header-format_extension_header [] all = refl
parse_extension_header-format_extension_header (uri ∷ uris) all =
    elim (Bool-cases (format_extension_header (uri ∷ uris) == "")) [
      | inl empty ↦ absurd (not_empty uri uris all empty)
      | inr full ↦ rw full (trimmed-format false uri uris all)
    ]
  where
    not_empty :
        (uri : String) (uris : List String)
        → AllUris (uri ∷ uris)
        → (format_extension_header (uri ∷ uris) == "") ≡ true
        → ⊥
    not_empty uri uris all empty =
        let e : format_extension_header (uri ∷ uris) ≡ "" =
          (eq_iff (format_extension_header (uri ∷ uris)) "").0 empty in
        let back = trimmed-format false uri uris all in
        let none_left : [] ≡ uri ∷ uris = sym (ap (λ s. trimmed_parts (split 44 s)) e) ∙ back in cc
