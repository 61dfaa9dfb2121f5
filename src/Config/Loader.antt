-- ===== src/Config/Loader.antt =====
-- internal/config/loader.go, and the queue of files that it works through (AddInclude, MarkProcessed,
-- popInclude of config.go). The parser is the one that the parse sub-package installs; what a file
-- holds and what a pattern matches are the operating system's: all three are parameters.
use greyd_v.Base.{
  ℕ, zero, suc, Bytes, bytes_eq, if◌then◌else◌, Bool, ◌||◌, List, [], ◌∷◌, ◌++◌, Option, none, some,
  drop, take, codes,
}
use greyd_v.Result.{Result, ok, err, no_parser, open_failed, ◌>>=◌}
use greyd_v.Memory.{sort_strings}
use greyd_v.Config.{Config}
use greyd_v.Config.Order.{listed}

-- `expandTilde`: the home directory is none where it is not known.
unfoldable pub expand_tilde : Option Bytes → Bytes → Bytes
unfolding bytes_eq
expand_tilde home p =
    if bytes_eq p (codes "~") || bytes_eq (take 2 p) (codes "~/")
    then elim home [ none ↦ p | some h ↦ h ++ drop 1 p ]
    else p

unfoldable pub queue_unprocessed : List Bytes → Config → Config
unfolding listed
queue_unprocessed [] c = c
queue_unprocessed (m ∷ ms) c =
    queue_unprocessed ms
      (if listed m c.processed then c else record c { includes = c.includes ++ (m ∷ []) })

-- `AddInclude`: `glob` is filepath.Glob, with no matches for a pattern that it refuses.
unfoldable pub add_include : Option Bytes → (Bytes → List Bytes) → Bytes → Config → Config
unfolding expand_tilde queue_unprocessed
add_include home glob pattern c =
    queue_unprocessed (sort_strings (glob (expand_tilde home pattern))) c

-- `MarkProcessed` and `Processed`: the map has the paths that were marked, which are listed as often as
-- they are marked.
abbrev pub mark_processed : Bytes → Config → Config
mark_processed path c = record c { processed = path ∷ c.processed }

abbrev pub is_processed : Bytes → Config → Bool
is_processed path c = listed path c.processed

-- `popInclude`, with the `continue` of the loop: the next file of the queue that was not loaded yet, and
-- the queue behind it.
unfoldable pub next_include : List Bytes → List Bytes → Option (Bytes × List Bytes)
unfolding listed
next_include processed [] = none
next_include processed (p ∷ ps) =
    let later = next_include processed ps in if listed p processed then later else some (p, ps)

-- The parser and the reader of files.
abbrev pub Parser : Type 0
Parser = Config → Bytes → Result Config

abbrev pub Reader : Type 0
Reader = Bytes → Option Bytes

-- What follows on a load that succeeded.
abbrev pub then_load :
    Option (Result Config) → (Config → Option (Result Config)) → Option (Result Config)
then_load none next = none
then_load (some (err e)) next = some (err e)
then_load (some (ok c)) next = next c

-- The loop ends where nothing is left to load; the configuration keeps the rest of the queue.
abbrev pub round :
    Config
    → (Bytes → Config → Option (Result Config))
    → Option (Bytes × List Bytes)
    → Option (Result Config)
round c load none = some (ok (record c { includes = [] }))
round c load (some (p, ps)) = load p (record c { includes = ps })

module _ (parser : Parser) (read_file : Reader) where
  -- The first half of `LoadFile`, for a path.
  unfoldable pub parse_read : Bytes → Config → Option Bytes → Result Config
  parse_read path c none = err (open_failed path)
  parse_read path c (some text) = do parsed ← parser c text; ok (mark_processed path parsed)

  unfoldable pub parse_file : Bytes → Config → Result Config
  unfolding parse_read
  parse_file path c = parse_read path c (read_file path)

  -- A file of the queue, which is a match of a pattern and so not empty; then what it includes, then the
  -- rest of the queue.
  abbrev pub load_with : (Config → Option (Result Config)) → Bytes → Config → Option (Result Config)
  load_with again p c = then_load (some (parse_file p c)) (λ d. then_load (again d) again)

  -- The loop over the queue, in which a round loads a file and all that this one includes; `none` where
  -- the fuel runs out.
  unfoldable pub load_includes : ℕ → Config → Option (Result Config)
  load_includes zero c = round c (λ p rest. none) (next_include c.processed c.includes)
  load_includes (suc fuel) c =
      round c (load_with (load_includes fuel)) (next_include c.processed c.includes)

  unfoldable pub load_path : ℕ → Bytes → Config → Option (Result Config)
  load_path fuel [] c = load_includes fuel c
  load_path fuel (b ∷ path) c = then_load (some (parse_file (b ∷ path) c)) (load_includes fuel)

-- `LoadFile`
unfoldable pub load_file : Option Parser → Reader → ℕ → Bytes → Config → Option (Result Config)
load_file none read_file fuel path c = some (err no_parser)
load_file (some parser) read_file fuel path c = load_path parser read_file fuel path c
