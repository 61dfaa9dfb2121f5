-- ===== src/Config/Laws.antt =====
-- What a variable of the configuration is after each change (internal/config/config.go,
-- section.go).
use greyd_v.Base.{
  Bytes, bytes_eq, bytes_eq_iff, if◌then◌else◌, Bool, ◌&&◌, Option, none, some, ◌≡◌, refl, arith,
  lookup, insert, lookup-insert, lookup-remove, Bool-cases, Option-cases, inl, inr,
}
use greyd_v.Base.Int.{ℤ}
use greyd_v.Config.Variables.{Value, int_value, str_value, list_value, append_value}
use greyd_v.Config.Sections
use greyd_v.Config.Sections.{Section, get, set, new_section}
use greyd_v.Config.{
  Config, add_section, section_name, section, created, create_section, change_section, or_new,
  value_in, value_of, list_or_new, set_int, set_str, delete, delete_in, append_list_str,
}

pub get-set :
    (var j : Bytes) (v : Value) (s : Section)
    → get j (set var v s) ≡ (if bytes_eq var j then some v else get j s)
unfolding set
get-set var j v s = lookup-insert var j v s.vars

pub get-delete :
    (var j : Bytes) (s : Section)
    → get j (Sections.delete var s) ≡ (if bytes_eq var j then none else get j s)
unfolding Sections.delete
get-delete var j s = elim (Option-cases (get var s)) [
  | inl h ↦ rw h (ground (arith, bytes_eq_iff var j, h))
  | inr (v, h) ↦ rw h (lookup-remove var j s.vars)
]

-- Two names of the same section: an empty one is that of the default section.
unfoldable pub same_section : Bytes → Bytes → Bool
unfolding section_name
same_section n m = bytes_eq (section_name n) (section_name m)

lookup-insert-created :
    (n j : Bytes) (s : Section) (c : Config) (o : Option Section)
    → lookup j (insert n s (created n o c).sections)
      ≡ (if bytes_eq n j then some s else lookup j c.sections)
unfolding add_section
lookup-insert-created n j s c (some _) = lookup-insert n j s c.sections
lookup-insert-created n j s c none = ground (
  arith,
  lookup-insert n j (new_section n) c.sections,
  lookup-insert n j s (insert n (new_section n) c.sections),
  bytes_eq_iff n j,
)

pub lookup-change_section :
    (name j : Bytes) (f : Section → Section) (c : Config)
    → lookup j (change_section name f c).sections ≡ (
        if bytes_eq (section_name name) j
        then some (f (or_new (section_name name) (lookup (section_name name) c.sections)))
        else lookup j c.sections)
unfolding change_section create_section
lookup-change_section name j f c =
    lookup-insert-created (section_name name) j
      (f (or_new (section_name name) (lookup (section_name name) c.sections))) c
      (lookup (section_name name) c.sections)

pub value_in-or_new : (j n : Bytes) (o : Option Section) → get j (or_new n o) ≡ value_in j o
unfolding lookup
value_in-or_new j n none = refl
value_in-or_new j n (some s) = refl

-- Reading any variable of any section after one variable is set.
value_of-set :
    (var name j n : Bytes) (new : Option Value → Value) (c : Config)
    → value_of j n (change_section name (λ s. set var (new (get var s)) s) c) ≡ (
        if same_section name n && bytes_eq var j
        then some (new (value_of var name c))
        else value_of j n c)
unfolding value_of same_section
value_of-set var name j n new c =
    let m = section_name name in
    let was = lookup m c.sections in
    rw (lookup-change_section name (section_name n) (λ s. set var (new (get var s)) s) c)
      (elim (Bool-cases (bytes_eq m (section_name n))) [
        | inl h ↦
            rw (h, get-set var j (new (get var (or_new m was))) (or_new m was))
              (ground (
                arith,
                value_in-or_new j m was,
                value_in-or_new var m was,
                (bytes_eq_iff m (section_name n)).0 h,
              ))
        | inr h ↦ rw h refl
      ])

value_of-delete :
    (var name j n : Bytes) (c : Config)
    → value_of j n (delete var name c)
      ≡ (if same_section name n && bytes_eq var j then none else value_of j n c)
unfolding value_of same_section delete delete_in
value_of-delete var name j n c = elim (Option-cases (section name c)) [
  | inl h ↦ rw h (ground (arith, h, bytes_eq_iff (section_name name) (section_name n)))
  | inr (s, h) ↦
      rw (h, lookup-insert (section_name name) (section_name n) (Sections.delete var s) c.sections)
        (ground (arith, h, get-delete var j s, bytes_eq_iff (section_name name) (section_name n)))
]

-- What a change of one variable leaves: that variable has the new value, and every other variable of
-- every section the value it had.
abbrev pub Changes : (Config → Config) → Bytes → Bytes → (Option Value → Option Value) → Type 0
Changes change var name new =
    (c : Config) (j n : Bytes)
    → value_of j n (change c) ≡ (
        if same_section name n && bytes_eq var j then new (value_of var name c) else value_of j n c)

abbrev pub appended : Bytes → Option Value → Value
appended text v = list_value (append_value (list_or_new v) (str_value text))

-- `SetInt`, `SetStr`, `AppendListStr` and `Delete` each change the variable `var` of the section
-- `name` (the default section for an empty name) and no other variable of any section: afterwards it
-- is the integer; the string; the list of before, or an empty one where there was no list, with the
-- string appended; unset.
pub changed-value_of :
    (var name text : Bytes) (i : ℤ)
    → Changes (set_int var name i) var name (λ _. some (int_value i))
      × Changes (set_str var name text) var name (λ _. some (str_value text))
      × Changes (append_list_str var name text) var name (λ v. some (appended text v))
      × Changes (delete var name) var name (λ _. none)
unfolding set_int set_str append_list_str
changed-value_of var name text i = (
  λ c j n. value_of-set var name j n (λ _. int_value i) c,
  λ c j n. value_of-set var name j n (λ _. str_value text) c,
  λ c j n. value_of-set var name j n (appended text) c,
  λ c j n. value_of-delete var name j n c,
)
