-- ===== src/Config/Loads.antt =====
-- Loading a file with all that it includes ends, and loads each file at most once
-- (internal/config/loader.go with the builder of parse.go).
use mathlib.Core.Path.{subst}
use greyd_v.Base.{
  ℕ, zero, suc, ◌≤◌, ◌<◌, Bytes, bytes_eq, bytes_eq_iff, if◌then◌else◌, true, false, List, [], ◌∷◌,
  Option, none, some, ◌≡◌, refl, arith, All, if_rule, inl, inr, ap, sym,
}
use greyd_v.Result.{Result, ok, err, >>=-eq-ok, Result-cases}
use greyd_v.Config.{Config}
use greyd_v.Config.Order.{listed, Distinct}
use greyd_v.Config.Loader.{
  Parser, Reader, next_include, then_load, round, parse_read, parse_file, load_includes, load_path,
  load_with,
}

-- The files of a list that are not loaded yet.
unfoldable pub todo : List Bytes → List Bytes → ℕ
unfolding listed
todo processed [] = zero
todo processed (f ∷ fs) =
    let rest = todo processed fs in if listed f processed then rest else suc rest

abbrev pub Within : List Bytes → List Bytes → Type 0
Within files = All (λ p. listed p files ≡ true)

-- A parser that queues files of the list only, and marks none.
pub record Queues (files : List Bytes) (parser : Parser) : Type 0 where
  pub keeps : (c d : Config) (s : Bytes) → parser c s ≡ ok d → d.processed ≡ c.processed
  pub within :
      (c d : Config) (s : Bytes)
      → parser c s ≡ ok d
      → Within files c.includes
      → Within files d.includes

todo-marked_le :
    (p : Bytes) (processed files : List Bytes) → todo (p ∷ processed) files ≤ todo processed files
unfolding todo listed
todo-marked_le p processed [] = omega arith
todo-marked_le p processed (f ∷ fs) = ground (arith, todo-marked_le p processed fs)

todo-marked :
    (p : Bytes) (processed files : List Bytes)
    → listed p files ≡ true
    → listed p processed ≡ false
    → todo (p ∷ processed) files < todo processed files
unfolding todo listed
todo-marked p processed [] h k = absurd (cc h)
todo-marked p processed (f ∷ fs) h k = ground (
  arith,
  bytes_eq_iff f p,
  bytes_eq_iff p f,
  h,
  k,
  todo-marked_le p processed fs,
  todo-marked p processed fs,
)

-- What the loop takes from the queue: a file of the list that is not loaded yet.
abbrev Next : List Bytes → List Bytes → Option (Bytes × List Bytes) → Type 0
Next files processed none = Unit
Next files processed (some (p, ps)) =
    (listed p files ≡ true) × (listed p processed ≡ false) × Within files ps

next_include-Next :
    (files processed queue : List Bytes)
    → Within files queue
    → Next files processed (next_include processed queue)
unfolding next_include
next_include-Next files processed [] w = tt
next_include-Next files processed (q ∷ queue) w =
    if_rule (Next files processed) (listed q processed)
      (λ h. next_include-Next files processed queue w.1) λ h. (w.0, h, w.1)

-- How a load ends: with an error, or with nothing left to load and each path marked once.
abbrev pub Ended : Option (Result Config) → Type 0
Ended none = false ≡ true
Ended (some (err e)) = Unit
Ended (some (ok d)) = (d.includes ≡ []) × Distinct d.processed

-- What a load starts from: a path, where there is one, and a queue from the list of files, the path not
-- loaded yet, and no file marked twice.
pub record CanLoad (files : List Bytes) (path : Bytes) (c : Config) : Type 0 where
  pub known : bytes_eq path [] ≡ false → listed path files ≡ true
  pub fresh : bytes_eq path [] ≡ false → listed path c.processed ≡ false
  pub queued : Within files c.includes
  pub marked : Distinct c.processed

round-Ended :
    (files : List Bytes) (c : Config) (load : Bytes → Config → Option (Result Config))
    (o : Option (Bytes × List Bytes))
    → Distinct c.processed
    → ((p : Bytes) (ps : List Bytes)
        → Next files c.processed (some (p, ps))
        → Ended (load p (record c { includes = ps })))
    → Next files c.processed o
    → Ended (round c load o)
round-Ended files c load none d step n = (refl, d)
round-Ended files c load (some (p, ps)) d step n = step p ps n

round-idle :
    (c : Config) (load : Bytes → Config → Option (Result Config))
    → c.includes ≡ []
    → Distinct c.processed
    → Ended (round c load (next_include c.processed c.includes))
unfolding next_include
round-idle c load h d =
    subst (λ is. Ended (round c load (next_include c.processed is))) (sym h) (refl, d)

ok-injective : {c d : Config} → ok c ≡ ok d → c ≡ d
ok-injective h = cc h

marked-Distinct :
    (p : Bytes) (c e : Config)
    → e.processed ≡ p ∷ c.processed
    → listed p c.processed ≡ false
    → Distinct c.processed
    → Distinct e.processed
unfolding Distinct
marked-Distinct p c e marks fresh d = subst Distinct (sym marks) (fresh, d)

module _ (files : List Bytes) (parser : Parser) (read_file : Reader) (q : Queues files parser) where
  parse_read-marks :
      (p : Bytes) (c d : Config) (o : Option Bytes)
      → parse_read parser read_file p c o ≡ ok d
      → Within files c.includes
      → (d.processed ≡ p ∷ c.processed) × Within files d.includes
  unfolding parse_read
  parse_read-marks p c d none h w = absurd (cc h)
  parse_read-marks p c d (some text) h w =
      let (parsed, parses, marks) = >>=-eq-ok (parser c text) _ h in
      subst (λ e. (e.processed ≡ p ∷ c.processed) × Within files e.includes) (ok-injective marks)
        (ap (◌∷◌ p) (q.keeps c parsed text parses), q.within c parsed text parses w)

  load_includes-idle :
      (fuel : ℕ) (c : Config)
      → c.includes ≡ []
      → Distinct c.processed
      → Ended (load_includes parser read_file fuel c)
  unfolding load_includes
  load_includes-idle zero c h d = round-idle c (λ p rest. none) h d
  load_includes-idle (suc fuel) c h d =
      round-idle c (load_with parser read_file (load_includes parser read_file fuel)) h d

  then_load-Ended :
      (fuel : ℕ) (o : Option (Result Config))
      → Ended o
      → Ended (then_load o (load_includes parser read_file fuel))
  then_load-Ended fuel none e = e
  then_load-Ended fuel (some (err _)) e = e
  then_load-Ended fuel (some (ok d)) e = load_includes-idle fuel d e.0 e.1

  -- What a file that was loaded leaves to do.
  parsed-Ended :
      (p : Bytes) (c : Config) (next : Config → Option (Result Config))
      (continue : (d : Config)
        → d.processed ≡ p ∷ c.processed
        → Within files d.includes
        → Ended (next d))
      → Within files c.includes
      → Ended (then_load (some (parse_file parser read_file p c)) next)
  unfolding parse_file
  parsed-Ended p c next continue w =
      elim (Result-cases (parse_read parser read_file p c (read_file p))) [
        | inl (d, h) ↦
            let (marks, within) = parse_read-marks p c d (read_file p) h w in
            rw h (continue d marks within)
        | inr (e, h) ↦ rw h tt
      ]

  marked_le :
      (p : Bytes) (c e : Config) (fuel : ℕ)
      → e.processed ≡ p ∷ c.processed
      → listed p files ≡ true
      → listed p c.processed ≡ false
      → todo c.processed files ≤ suc fuel
      → todo e.processed files ≤ fuel
  marked_le p c e fuel marks h fresh enough =
      rw marks (omega (arith, todo-marked p c.processed files h fresh, enough))

  load_includes-Ended :
      (fuel : ℕ) (c : Config)
      → Within files c.includes
      → Distinct c.processed
      → todo c.processed files ≤ fuel
      → Ended (load_includes parser read_file fuel c)
  unfolding load_includes
  load_includes-Ended zero c w d enough =
      round-Ended files c (λ p rest. none) (next_include c.processed c.includes) d
        (λ p ps n. absurd (omega (arith, todo-marked p c.processed files n.0 n.1)))
        (next_include-Next files c.processed c.includes w)
  load_includes-Ended (suc fuel) c w d enough =
      round-Ended files c (load_with parser read_file (load_includes parser read_file fuel))
        (next_include c.processed c.includes) d
        (λ p ps n.
          parsed-Ended p (record c { includes = ps }) _
            (λ e marks within. then_load-Ended fuel (load_includes parser read_file fuel e) (
              load_includes-Ended fuel e within (marked-Distinct p c e marks n.1 d)
                (marked_le p c e fuel marks n.0 n.1 enough)))
            n.2)
        (next_include-Next files c.processed c.includes w)

  pub load_path-Ended :
      (fuel : ℕ) (path : Bytes) (c : Config)
      → CanLoad files path c
      → todo c.processed files ≤ fuel
      → Ended (load_path parser read_file fuel path c)
  unfolding load_path bytes_eq
  load_path-Ended fuel [] c can enough = load_includes-Ended fuel c can.queued can.marked enough
  load_path-Ended fuel (b ∷ path) c can enough =
      parsed-Ended (b ∷ path) c _
        (λ e marks within.
          load_includes-Ended fuel e within
            (marked-Distinct (b ∷ path) c e marks (can.fresh refl) can.marked)
            (marked_le (b ∷ path) c e fuel marks (can.known refl) (can.fresh refl)
              (omega (arith, enough))))
        can.queued
