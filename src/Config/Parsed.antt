-- ===== src/Config/Parsed.antt =====
-- `LoadFile` with the parser that the parse sub-package installs (internal/config/parse/parse.go).
use mathlib.Core.Path.{subst}
use greyd_v.Base.{
  ℕ, ◌≤◌, Bytes, true, List, [], ◌∷◌, Option, none, some, ◌≡◌, refl, All-append, if_rule, map,
}
use greyd_v.Core.{to_lower}
use greyd_v.Memory.{insert_sorted, bytes_leb, sort_strings}
use greyd_v.Result.{Result, ok, err, >>=-eq-ok}
use greyd_v.Config.Order.{listed, Distinct}
use greyd_v.Config.Sections.{Section, new_section}
use greyd_v.Config.{Config, default_section, section, add_section}
use greyd_v.Config.Loader.{Reader, queue_unprocessed, add_include, expand_tilde, load_file}
use greyd_v.Config.Builder.{
  Statement, SectionType, one_assignment, definition, inclusion, of_section, of_blacklist,
  of_whitelist, add_definition, with_default, or_default, assign, assign_all, unquote,
  apply_statement, apply_statements, into,
}
use greyd_v.Config.Loads.{Within, Queues, CanLoad, Ended, todo, load_path-Ended}

-- A change that marks no file and queues files of the list only.
record Harmless (files : List Bytes) (c d : Config) : Type 0 where
  keeps : d.processed ≡ c.processed
  within : Within files c.includes → Within files d.includes

Harmless-trans :
    {files : List Bytes} {c d e : Config}
    → Harmless files c d
    → Harmless files d e
    → Harmless files c e
Harmless-trans h k = record { keeps = cc (h.keeps, k.keeps); within = λ w. k.within (h.within w) }

Harmless-refl : {files : List Bytes} {c : Config} → Harmless files c c
Harmless-refl = record { keeps = refl; within = λ w. w }

queue_unprocessed-Harmless :
    (files ms : List Bytes) (c : Config)
    → Within files ms
    → Harmless files c (queue_unprocessed ms c)
unfolding queue_unprocessed
queue_unprocessed-Harmless files [] c w = Harmless-refl
queue_unprocessed-Harmless files (m ∷ ms) c w =
    Harmless-trans
      (if_rule (Harmless files c) (listed m c.processed) (λ _. Harmless-refl)
        λ _. record {
          keeps = refl;
          within = λ v. All-append (λ p. listed p files ≡ true) c.includes (m ∷ []) v (w.0, tt);
        })
      (queue_unprocessed-Harmless files ms _ w.1)

insert_sorted-Within :
    (files : List Bytes) (k : Bytes) (js : List Bytes)
    → listed k files ≡ true
    → Within files js
    → Within files (insert_sorted k js)
unfolding insert_sorted
insert_sorted-Within files k [] h w = (h, tt)
insert_sorted-Within files k (j ∷ js) h w =
    if_rule (Within files) (bytes_leb k j) (λ _. (h, w))
      λ _. (w.0, insert_sorted-Within files k js h w.1)

sort_strings-Within : (files ks : List Bytes) → Within files ks → Within files (sort_strings ks)
unfolding sort_strings
sort_strings-Within files [] w = tt
sort_strings-Within files (k ∷ ks) w =
    insert_sorted-Within files k (sort_strings ks) w.0 (sort_strings-Within files ks w.1)

add_definition-Harmless :
    (files : List Bytes) (ty : SectionType) (s : Section) (c : Config)
    → Harmless files c (add_definition ty s c)
unfolding add_section
add_definition-Harmless files of_section s c = record { keeps = refl; within = λ w. w }
add_definition-Harmless files of_blacklist s c = record { keeps = refl; within = λ w. w }
add_definition-Harmless files of_whitelist s c = record { keeps = refl; within = λ w. w }

with_default-Harmless :
    (files : List Bytes) (o : Option Section) (c : Config) → Harmless files c (with_default o c)
unfolding add_section
with_default-Harmless files none c = record { keeps = refl; within = λ w. w }
with_default-Harmless files (some s) c = Harmless-refl

Harmless-ok :
    {files : List Bytes} {c d e : Config} → ok d ≡ ok e → Harmless files c d → Harmless files c e
Harmless-ok {files} {c} {d} {e} h k = subst (Harmless files c) (cc h) k

module _ (files : List Bytes) (home : Option Bytes) (glob : Bytes → List Bytes) where
  apply_statement-Harmless :
      (matches : (p : Bytes) → Within files (glob p)) (st : Statement) (c d : Config)
      → apply_statement home glob st c ≡ ok d
      → Harmless files c d
  unfolding apply_statement add_include
  apply_statement-Harmless matches (one_assignment name t) c d h =
      let (s, assigned, made) =
        >>=-eq-ok (assign name t (or_default (section default_section c))) _ h in
      Harmless-ok made record { keeps = refl; within = λ w. w }
  apply_statement-Harmless matches (definition ty name assignments) c d h =
      let (s, assigned, made) =
        >>=-eq-ok (assign_all assignments (new_section (map to_lower name))) _ h in
      Harmless-ok made (add_definition-Harmless files ty s c)
  apply_statement-Harmless matches (inclusion text) c d h = Harmless-ok h (
      queue_unprocessed-Harmless files _ c
        (sort_strings-Within files _ (matches (expand_tilde home (unquote text)))))

  apply_statements-Harmless :
      (matches : (p : Bytes) → Within files (glob p)) (sts : List Statement) (c d : Config)
      → apply_statements home glob sts c ≡ ok d
      → Harmless files c d
  unfolding apply_statements
  apply_statements-Harmless matches [] c d h = Harmless-ok h Harmless-refl
  apply_statements-Harmless matches (st ∷ sts) c d h =
      let (mid, first, rest) = >>=-eq-ok (apply_statement home glob st c) _ h in
      Harmless-trans (apply_statement-Harmless matches st c mid first)
        (apply_statements-Harmless matches sts mid d rest)

  into-Queues :
      (parse_tree : Bytes → Result (List Statement))
      → ((p : Bytes) → Within files (glob p))
      → Queues files (into home glob parse_tree)
  unfolding into
  into-Queues parse_tree matches = record {
    keeps = λ c d s h. (applied c d s h).keeps;
    within = λ c d s h. (applied c d s h).within;
  }
    where
      applied :
          (c d : Config) (s : Bytes) → into home glob parse_tree c s ≡ ok d → Harmless files c d
      applied c d s h =
          let (sts, parses, rest) = >>=-eq-ok (parse_tree s) _ h in
          Harmless-trans (with_default-Harmless files (section default_section c) c)
            (apply_statements-Harmless matches sts _ d rest)

-- What a load leaves: where it succeeds, an empty queue and no file loaded twice.
abbrev pub Once : Result Config → Type 0
Once (err e) = Unit
Once (ok d) = (d.includes ≡ []) × Distinct d.processed

outcome : (o : Option (Result Config)) → Ended o → (r : Result Config) × (o ≡ some r) × Once r
outcome none e = absurd (cc e)
outcome (some (err x)) e = (err x, refl, e)
outcome (some (ok d)) e = (ok d, refl, e)

module _ (files : List Bytes) (home : Option Bytes) (glob : Bytes → List Bytes)
    (parse_tree : Bytes → Result (List Statement)) (read_file : Reader)
    (matches : (p : Bytes) → Within files (glob p)) where
  installed-Ended :
      (fuel : ℕ) (path : Bytes) (c : Config)
      → CanLoad files path c
      → todo c.processed files ≤ fuel
      → Ended (load_file (some (into home glob parse_tree)) read_file fuel path c)
  unfolding load_file
  installed-Ended fuel path c can enough =
      load_path-Ended files (into home glob parse_tree) read_file
        (into-Queues files home glob parse_tree matches) fuel path c can enough

  -- `LoadFile` ends, however the files include one another: as many nested rounds as there are files not
  -- loaded yet are enough. Where it succeeds, it has loaded each file at most once and leaves nothing in
  -- the queue. It holds for a file system in which a pattern matches only files of a list, where the path
  -- (if any) and the queue are files of the list, the path is not loaded yet and no file is marked
  -- twice.
  pub load_file-Once :
      (fuel : ℕ) (path : Bytes) (c : Config)
      → CanLoad files path c
      → todo c.processed files ≤ fuel
      → (r : Result Config) × (load_file (some (into home glob parse_tree)) read_file fuel path c
          ≡ some r)
        × Once r
  load_file-Once fuel path c can enough = outcome _ (installed-Ended fuel path c can enough)
