-- ===== src/Settings/Typed.antt =====
-- What `decode` of internal/settings/settings.go fills the fields of a struct with.
use mathlib.Core.Path.{subst}
use greyd_v.Base.{
  Bytes, List, [], ◌∷◌, Option, none, some, ◌≡◌, refl, Table, ap, ◌∙◌, Option-cases, inl, inr,
}
use greyd_v.Result.{ok, >>=-eq-ok}
use greyd_v.Config.Variables.{Value, int_value, str_value, list_value, strings}
use greyd_v.Config.{Config, section, value_of, int, str, str_list}
use greyd_v.Config.Sections.{as_int, as_str}
use greyd_v.Settings.Schema.{Kind, boolean, number, text, texts, Field}
use greyd_v.Settings.Fields.{
  Datum, number_datum, text_datum, texts_datum, boolean_of, default_number, default_text, set_field,
  value_in, decode,
}

-- What the configuration's own operation for the kind returns, with the default of the field.
abbrev pub getter : Kind → Bytes → Option Bytes → Bytes → Config → Datum
getter boolean name def sec c = boolean_of (int name sec (default_number def) c)
getter number name def sec c = number_datum (int name sec (default_number def) c)
getter text name def sec c = text_datum (str name sec (default_text def) c)
getter texts name def sec c = texts_datum (str_list name sec c)

-- A struct has its fields in order, each with the value of its kind.
unfoldable pub Reads : Config → Bytes → List Field → Table Datum → Type 0
Reads c sec [] [] = Unit
Reads c sec [] (_ ∷ _) = some tt ≡ none
Reads c sec (f ∷ fs) [] = some tt ≡ none
Reads c sec (f ∷ fs) ((n, d) ∷ rest) =
    (n ≡ f.name) × (d ≡ getter f.kind f.name f.def sec c) × Reads c sec fs rest

-- The same of a value that was read.
abbrev typed : Kind → Option Bytes → Option Value → Datum
typed boolean def o = boolean_of (as_int o (default_number def))
typed number def o = number_datum (as_int o (default_number def))
typed text def o = text_datum (as_str o (default_text def))
typed texts def o = texts_datum (strings o)

set_field-typed :
    (name : Bytes) (k : Kind) (def : Option Bytes) (o : Option Value) (d : Datum)
    → set_field name k def o ≡ ok d
    → d ≡ typed k def o
unfolding set_field strings
set_field-typed name boolean def none d h = cc h
set_field-typed name boolean def (some (int_value i)) d h = cc h
set_field-typed name boolean def (some (str_value s)) d h = absurd (cc h)
set_field-typed name boolean def (some (list_value vs)) d h = absurd (cc h)
set_field-typed name number def none d h = cc h
set_field-typed name number def (some (int_value i)) d h = cc h
set_field-typed name number def (some (str_value s)) d h = absurd (cc h)
set_field-typed name number def (some (list_value vs)) d h = absurd (cc h)
set_field-typed name text def none d h = cc h
set_field-typed name text def (some (int_value i)) d h = absurd (cc h)
set_field-typed name text def (some (str_value s)) d h = cc h
set_field-typed name text def (some (list_value vs)) d h = absurd (cc h)
set_field-typed name texts def none d h = cc h
set_field-typed name texts def (some (int_value i)) d h = absurd (cc h)
set_field-typed name texts def (some (str_value s)) d h = cc h
set_field-typed name texts def (some (list_value vs)) d h = cc h

typed-getter :
    (f : Field) (sec : Bytes) (c : Config)
    → typed f.kind f.def (value_of f.name sec c) ≡ getter f.kind f.name f.def sec c
typed-getter f sec c = kinds f.kind
  where
    kinds : (k : Kind) → typed k f.def (value_of f.name sec c) ≡ getter k f.name f.def sec c
    kinds boolean = refl
    kinds number = refl
    kinds text = refl
    kinds texts = refl

value_in-section :
    (name sec : Bytes) (c : Config) → value_in name (section sec c) ≡ value_of name sec c
unfolding value_of
value_in-section name sec c = elim (Option-cases (section sec c)) [
  | inl h ↦ rw h refl
  | inr (s, h) ↦ rw h refl
]

ok-injective : {t u : Table Datum} → ok t ≡ ok u → t ≡ u
ok-injective h = cc h

-- A struct that `decode` fills from a section of a configuration has the struct's fields in order, each
-- with a value of its declared kind: the one that `Int`, `Str`, `StrList` of the configuration or, for a
-- flag, the test of `Int` against 0 gives for the variable, with the field's default.
pub decode-Reads :
    (fields : List Field) (sec : Bytes) (c : Config) (t : Table Datum)
    → decode fields (section sec c) ≡ ok t
    → Reads c sec fields t
unfolding decode Reads
decode-Reads [] sec c [] h = tt
decode-Reads [] sec c (_ ∷ _) h = absurd (cc h)
decode-Reads (f ∷ fs) sec c t h =
    let (d, first, more) =
      >>=-eq-ok (set_field f.name f.kind f.def (value_in f.name (section sec c))) _ h in
    let (rest, decodes, made) = >>=-eq-ok (decode fs (section sec c)) _ more in
    subst (Reads c sec (f ∷ fs)) (ok-injective made) (
      refl,
      set_field-typed f.name f.kind f.def _ d first
          ∙ (ap (typed f.kind f.def) (value_in-section f.name sec c) ∙ typed-getter f sec c),
      decode-Reads fs sec c rest decodes,
    )
