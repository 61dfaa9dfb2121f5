-- ===== src/Config/Invariant.antt =====
-- The order lists of the configuration and its sections name what is set, each once, whatever is done
-- with them (internal/config/config.go, section.go).
use mathlib.Core.Path.{subst}
use greyd_v.Base.{
  Bytes, bytes_eq, if◌then◌else◌, Bool, true, false, List, [], ◌∷◌, ◌++◌, Option, none, some, ◌≡◌,
  refl, arith, Table, lookup, insert, lookup-insert, Bool-cases, Option-cases, inl, inr, ◌∙◌, ap,
  sym, bytes_eq_refl,
}
use greyd_v.Base.Int.{ℤ}
use greyd_v.Config.Variables.{Value, int_value, str_value, clone}
use greyd_v.Config.Order.{Tidy, Tidy-nil, Tidy-insert, Tidy-remove, is_some}
use greyd_v.Config.Sections
use greyd_v.Config.Sections.{Section, get, set, new_section}
use greyd_v.Config.Laws.{lookup-change_section, appended}
use greyd_v.Config.Merge.{Ordered}
use greyd_v.Config.{
  Config, section_name, section, add_section, add_blacklist, add_whitelist, created, create_section,
  change_section, or_new, copy_vars, copy_section, merge_sections, merge, set_clone, set_int,
  set_str, delete, delete_in, append_list_str,
}

abbrev pub SectionTidy : Section → Type 0
SectionTidy s = Tidy s.vars s.order

set-SectionTidy :
    (var : Bytes) (v : Value) (s : Section) → SectionTidy s → SectionTidy (set var v s)
unfolding set
set-SectionTidy var v s t = Tidy-insert var v s.vars s.order t

delete-SectionTidy :
    (var : Bytes) (s : Section) → SectionTidy s → SectionTidy (Sections.delete var s)
unfolding Sections.delete
delete-SectionTidy var s t = elim (Option-cases (get var s)) [
  | inl h ↦ rw h t
  | inr (v, h) ↦ rw h (Tidy-remove var s.vars s.order t)
]

copy_vars-SectionTidy :
    (src : Section) (ks : List Bytes) (dst : Section)
    → SectionTidy dst
    → SectionTidy (copy_vars src ks dst)
unfolding copy_vars
copy_vars-SectionTidy src [] dst t = t
copy_vars-SectionTidy src (k ∷ ks) dst t =
    copy_vars-SectionTidy src ks (set_clone k (get k src) dst) (cloned (get k src))
  where
    cloned : (o : Option Value) → SectionTidy (set_clone k o dst)
    cloned none = t
    cloned (some v) = set-SectionTidy k (clone v) dst t

copy_section-SectionTidy :
    (o : Option Section) (dst : Section) → SectionTidy dst → SectionTidy (copy_section o dst)
copy_section-SectionTidy none dst t = t
copy_section-SectionTidy (some src) dst t = copy_vars-SectionTidy src src.order dst t

-- Setting what is set already leaves the order.
Tidy-again :
    {V : Type 0} (k : Bytes) (v : V) (m : Table V) (ks : List Bytes)
    → Tidy m ks
    → is_some (lookup k m) ≡ true
    → Tidy (insert k v m) ks
Tidy-again k v m ks t h =
    subst (λ b. Tidy (insert k v m) (if b then ks else ks ++ (k ∷ []))) h (Tidy-insert k v m ks t)

insert-created-Tidy :
    (n : Bytes) (s : Section) (c : Config) (o : Option Section)
    → lookup n c.sections ≡ o
    → Tidy c.sections c.order
    → Tidy (insert n s (created n o c).sections) (created n o c).order
unfolding add_section
insert-created-Tidy n s c (some _) h t = Tidy-again n s c.sections c.order t (ap is_some h)
insert-created-Tidy n s c none h t =
    Tidy-again n s _ _ (Tidy-insert n (new_section n) c.sections c.order t)
      (ground (arith, lookup-insert n n (new_section n) c.sections, bytes_eq_refl n))

section_name-named : (name : Bytes) → bytes_eq (section_name name) [] ≡ false
unfolding section_name bytes_eq
section_name-named [] = refl
section_name-named (c ∷ cs) = refl

or_new-SectionTidy :
    (n : Bytes) (c : Config) → Ordered c → SectionTidy (or_new n (lookup n c.sections))
or_new-SectionTidy n c w = elim (Option-cases (lookup n c.sections)) [
  | inl h ↦ rw h Tidy-nil
  | inr (s, h) ↦ rw h (w.of_vars n s h)
]

made_eq :
    (m n : Bytes) (made s : Section) (o : Option Section)
    → bytes_eq m n ≡ true
    → (if bytes_eq m n then some made else o) ≡ some s
    → made ≡ s
made_eq m n made s o e h = ground (arith, e, h)

if_false :
    {b : Bool} {o q : Option Section} (p : Option Section)
    → b ≡ false
    → (if b then p else o) ≡ q
    → o ≡ q
if_false p e h = ground (arith, e, h)

change_section-Ordered :
    (name : Bytes) (f : Section → Section) (c : Config)
    (keeps : (s : Section) → SectionTidy s → SectionTidy (f s))
    → Ordered c
    → Ordered (change_section name f c)
unfolding change_section create_section
change_section-Ordered name f c keeps w =
    let m = section_name name in
    record {
      of_sections = insert-created-Tidy m _ c (section name c) refl w.of_sections;
      of_vars = λ n s h. elim (Bool-cases (bytes_eq m n)) [
        | inl e ↦
            subst SectionTidy (made_eq m n _ s _ e (sym (lookup-change_section name n f c) ∙ h))
              (keeps _ (or_new-SectionTidy m c w))
        | inr e ↦ w.of_vars n s (if_false _ e (sym (lookup-change_section name n f c) ∙ h))
      ];
      named = cc (section_name-named name, lookup-change_section name [] f c, w.named);
    }

set_var-Ordered :
    (var name : Bytes) (new : Option Value → Value) (c : Config)
    → Ordered c
    → Ordered (change_section name (λ s. set var (new (get var s)) s) c)
set_var-Ordered var name new c w =
    change_section-Ordered name (λ s. set var (new (get var s)) s) c
      (λ s. set-SectionTidy var (new (get var s)) s) w

merge_sections-Ordered :
    (from : Table Section) (names : List Bytes) (c : Config)
    → Ordered c
    → Ordered (merge_sections from names c)
unfolding merge_sections
merge_sections-Ordered from [] c w = w
merge_sections-Ordered from (n ∷ names) c w = merge_sections-Ordered from names _ (
    change_section-Ordered n (copy_section (lookup n from)) c
      (copy_section-SectionTidy (lookup n from)) w)

add_section-Ordered :
    (s : Section) (c : Config)
    → SectionTidy s
    → bytes_eq s.name [] ≡ false
    → Ordered c
    → Ordered (add_section s c)
unfolding add_section
add_section-Ordered s c t named w = record {
  of_sections = Tidy-insert s.name s c.sections c.order w.of_sections;
  of_vars = λ n u h. elim (Bool-cases (bytes_eq s.name n)) [
    | inl e ↦
        subst SectionTidy (made_eq s.name n s u _ e (sym (lookup-insert s.name n s c.sections) ∙ h))
          t
    | inr e ↦ w.of_vars n u (if_false _ e (sym (lookup-insert s.name n s c.sections) ∙ h))
  ];
  named = cc (named, lookup-insert s.name [] s c.sections, w.named);
}

delete-Ordered : (var name : Bytes) (c : Config) → Ordered c → Ordered (delete var name c)
unfolding delete delete_in
delete-Ordered var name c w = elim (Option-cases (section name c)) [
  | inl h ↦ rw h w
  | inr (s, h) ↦ rw h record {
    of_sections = Tidy-again (section_name name) _ c.sections c.order w.of_sections (ap is_some h);
    of_vars = λ n u k. elim (Bool-cases (bytes_eq (section_name name) n)) [
      | inl e ↦
          subst SectionTidy
            (made_eq (section_name name) n _ u _ e (sym (lookup-insert _ n _ c.sections) ∙ k))
            (delete-SectionTidy var s (w.of_vars _ s h))
      | inr e ↦ w.of_vars n u (if_false _ e (sym (lookup-insert _ n _ c.sections) ∙ k))
    ];
    named = cc (section_name-named name, lookup-insert _ [] _ c.sections, w.named);
  }
]

-- One operation on a configuration. A section that is added has a name.
pub data Step (c : Config) : Config → Type 0 where
  adds_section :
      (s : Section) → SectionTidy s → bytes_eq s.name [] ≡ false → Step c (add_section s c)
  adds_blacklist : (s : Section) → Step c (add_blacklist s c)
  adds_whitelist : (s : Section) → Step c (add_whitelist s c)
  sets_int : (var name : Bytes) (i : ℤ) → Step c (set_int var name i c)
  sets_str : (var name text : Bytes) → Step c (set_str var name text c)
  appends_str : (var name text : Bytes) → Step c (append_list_str var name text c)
  deletes : (var name : Bytes) → Step c (delete var name c)
  merges : (from : Config) → Step c (merge from c)

-- Every operation keeps the configuration in order: the list of the sections and, in each section, the
-- list of its variables names exactly those that are set, each once, and no section has an empty
-- name.
pub Step-Ordered : (c d : Config) → Ordered c → Step c d → Ordered d
unfolding merge set_int set_str append_list_str
Step-Ordered c _ w (adds_section s t named) = add_section-Ordered s c t named w
Step-Ordered c _ w (adds_blacklist s) = record {
  of_sections = w.of_sections;
  of_vars = w.of_vars;
  named = w.named;
}
Step-Ordered c _ w (adds_whitelist s) = record {
  of_sections = w.of_sections;
  of_vars = w.of_vars;
  named = w.named;
}
Step-Ordered c _ w (sets_int var name i) = set_var-Ordered var name (λ _. int_value i) c w
Step-Ordered c _ w (sets_str var name text) = set_var-Ordered var name (λ _. str_value text) c w
Step-Ordered c _ w (appends_str var name text) = set_var-Ordered var name (appended text) c w
Step-Ordered c _ w (deletes var name) = delete-Ordered var name c w
Step-Ordered c _ w (merges from) = merge_sections-Ordered from.sections from.order c w
