-- ===== src/Config/Merge.antt =====
-- `Merge` of internal/config/config.go: what the configuration that is merged in sets overrides, and
-- the rest stays.
use greyd_v.Base.{
  Bytes, bytes_eq, bytes_eq_iff, if◌then◌else◌, false, List, [], ◌∷◌, Option, none, some, ◌≡◌, refl,
  arith, Table, lookup, ◌∙◌, ap,
}
use greyd_v.Config.Variables.{Value, clone-eq}
use greyd_v.Config.Order.{Tidy, listed, is_some}
use greyd_v.Config.Sections.{Section, get}
use greyd_v.Config.Laws.{get-set, lookup-change_section, value_in-or_new}
use greyd_v.Config.{
  Config, section_name, change_section, or_new, value_in, value_of, copy_vars, copy_section,
  merge_sections, merge, set_clone,
}

-- The first value that is there.
abbrev pub prefer : Option Value → Option Value → Option Value
prefer none v = v
prefer (some u) v = some u

-- Every section of the table has its variables in order, and none has an empty name: what the parser
-- builds, since the grammar has no empty name.
pub record Ordered (c : Config) : Type 0 where
  pub of_sections : Tidy c.sections c.order
  pub of_vars : (n : Bytes) (s : Section) → lookup n c.sections ≡ some s → Tidy s.vars s.order
  pub named : lookup [] c.sections ≡ none

get-set_clone :
    (k j : Bytes) (o : Option Value) (dst : Section)
    → get j (set_clone k o dst) ≡ (if bytes_eq k j then prefer o (get j dst) else get j dst)
get-set_clone k j none dst = ground arith
get-set_clone k j (some v) dst = rw (clone-eq v) (get-set k j v dst)

prefer_twice : (a b : Option Value) → prefer a (prefer a b) ≡ prefer a b
prefer_twice none b = refl
prefer_twice (some v) b = refl

get-copy_vars :
    (j : Bytes) (src : Section) (ks : List Bytes) (dst : Section)
    → get j (copy_vars src ks dst)
      ≡ (if listed j ks then prefer (get j src) (get j dst) else get j dst)
unfolding copy_vars listed
get-copy_vars j src [] dst = refl
get-copy_vars j src (k ∷ ks) dst = ground (
  arith,
  get-copy_vars j src ks (set_clone k (get k src) dst),
  get-set_clone k j (get k src) dst,
  bytes_eq_iff k j,
  prefer_twice (get j src) (get j dst),
)

-- A section merged in.
get-copy_section :
    (j : Bytes) (o : Option Section) (dst : Section)
    (tidy : (s : Section) → o ≡ some s → Tidy s.vars s.order)
    → get j (copy_section o dst) ≡ prefer (value_in j o) (get j dst)
get-copy_section j none dst tidy = refl
get-copy_section j (some src) dst tidy =
    ground (arith, get-copy_vars j src src.order dst, (tidy src refl).same j)

-- The values of a section of the table after the loop over `names`.
value_in-merge_sections :
    (from : Table Section)
    (tidy : (n : Bytes) (s : Section) → lookup n from ≡ some s → Tidy s.vars s.order) (v j : Bytes)
    (names : List Bytes) (c : Config)
    → listed [] names ≡ false
    → value_in v (lookup j (merge_sections from names c).sections) ≡ (
        if listed j names
        then prefer (value_in v (lookup j from)) (value_in v (lookup j c.sections))
        else value_in v (lookup j c.sections))
unfolding merge_sections listed section_name bytes_eq
value_in-merge_sections from tidy v j [] c h = refl
value_in-merge_sections from tidy v j ([] ∷ names) c h = absurd (cc h)
value_in-merge_sections from tidy v j ((x ∷ xs) ∷ names) c h =
    let n = x ∷ xs in
    let f = copy_section (lookup n from) in
    let was = lookup n c.sections in
    ground (
      arith,
      value_in-merge_sections from tidy v j names (change_section n f c) h,
      lookup-change_section n j f c,
      get-copy_section v (lookup n from) (or_new n was) (tidy n),
      value_in-or_new v n was,
      bytes_eq_iff n j,
      prefer_twice (value_in v (lookup n from)) (value_in v was),
    )

-- `Merge` overrides: afterwards a variable of a section (the default section for an empty name) has
-- the value that it has in `from`, where `from` sets it, and otherwise the value it had. It holds for
-- a `from` whose order lists have each name that is set once.
pub value_of-merge :
    (from c : Config) (v n : Bytes)
    → Ordered from
    → value_of v n (merge from c) ≡ prefer (value_of v n from) (value_of v n c)
unfolding value_of merge
value_of-merge from c v n o = ground (
  arith,
  value_in-merge_sections from.sections o.of_vars v (section_name n) from.order c
      (o.of_sections.same [] ∙ ap is_some o.named),
  o.of_sections.same (section_name n),
)
