-- ===== src/Cli/Render.antt =====
-- Command lines written by getopt(3)'s rules, and read by internal/cli/getopt.go.
use greyd_v.Base.{
  ℕ, Bytes, ◌==◌, bytes_eq, Bool, true, false, List, [], ◌∷◌, ◌++◌, Option, some, codes, ◌≡◌, refl,
  All, map, ap, ◌∙◌, sym,
}
use mathlib.Core.Path.{subst}
use greyd_v.Result.{ok}
use greyd_v.Cli.{Opt, takes_arg, flags, flag_round, argument, is_end, is_operand, word_round, parse}

-- A word of flags without arguments, of which there is at least one; flags and an option with its
-- argument in the same word, which is not empty; flags and an option with its argument in the next word.
pub data Group : Type 0 where
  bundle : ℕ → Bytes → Group
  attached : Bytes → ℕ → ℕ → Bytes → Group
  separate : Bytes → ℕ → Bytes → Group

abbrev pub words : Group → List Bytes
words (bundle c cs) = (b'-' ∷ (c ∷ cs)) ∷ []
words (attached cs f b bs) = (b'-' ∷ (cs ++ (f ∷ (b ∷ bs)))) ∷ []
words (separate cs f arg) = (b'-' ∷ (cs ++ (f ∷ []))) ∷ (arg ∷ [])

abbrev pub flag_only : ℕ → Opt
flag_only c = record { flag = c; arg = [] }

abbrev pub options : Group → List Opt
options (bundle c cs) = map flag_only (c ∷ cs)
options (attached cs f b bs) = map flag_only cs ++ (record { flag = f; arg = b ∷ bs } ∷ [])
options (separate cs f arg) = map flag_only cs ++ (record { flag = f; arg = arg } ∷ [])

-- A flag that the spec has, with or without an argument; a dash is none, since "--" ends the options.
abbrev pub IsFlag : Bytes → Bool → ℕ → Type 0
IsFlag spec needs c = (takes_arg spec c ≡ some needs) × ((c == b'-') ≡ false)

abbrev pub IsGroup : Bytes → Group → Type 0
IsGroup spec (bundle c cs) = All (IsFlag spec false) (c ∷ cs)
IsGroup spec (attached cs f b bs) = All (IsFlag spec false) cs × IsFlag spec true f
IsGroup spec (separate cs f arg) = All (IsFlag spec false) cs × IsFlag spec true f

-- The command line: the words of the groups, "--", and what follows.
unfoldable pub render : List Group → List Bytes → List Bytes
render [] rest = codes "--" ∷ rest
render (g ∷ gs) rest = words g ++ render gs rest

unfoldable pub all_options : List Group → List Opt
all_options [] = []
all_options (g ∷ gs) = options g ++ all_options gs

flags-append :
    (spec : Bytes) (next : Option Bytes) (cs tail : Bytes) (o : List Opt) (u : Bool)
    → All (IsFlag spec false) cs
    → flags spec next tail ≡ ok (o, u)
    → flags spec next (cs ++ tail) ≡ ok (map flag_only cs ++ o, u)
unfolding flags flag_round
flags-append spec next [] tail o u a h = h
flags-append spec next (c ∷ cs) tail o u a h =
    rw (a.0.0, flags-append spec next cs tail o u a.1 h) refl

flags-bundle :
    (spec : Bytes) (next : Option Bytes) (cs : Bytes)
    → All (IsFlag spec false) cs
    → flags spec next cs ≡ ok (map flag_only cs, false)
unfolding flags flag_round
flags-bundle spec next [] a = refl
flags-bundle spec next (c ∷ cs) a = rw (a.0.0, flags-bundle spec next cs a.1) refl

-- An option that takes its argument from the same word, or from the next.
flags-attached :
    (spec : Bytes) (next : Option Bytes) (f b : ℕ) (bs : Bytes)
    → takes_arg spec f ≡ some true
    → flags spec next (f ∷ (b ∷ bs)) ≡ ok (record { flag = f; arg = b ∷ bs } ∷ [], false)
unfolding flags flag_round argument
flags-attached spec next f b bs h = rw h refl

flags-separate :
    (spec word : Bytes) (f : ℕ)
    → takes_arg spec f ≡ some true
    → flags spec (some word) (f ∷ []) ≡ ok (record { flag = f; arg = word } ∷ [], true)
unfolding flags flag_round argument
flags-separate spec word f h = rw h refl

-- A word that begins with a dash and a flag is one of options.
abbrev StartsFlag : Bytes → Type 0
StartsFlag [] = false ≡ true
StartsFlag (c ∷ cs) = (c == b'-') ≡ false

append-StartsFlag :
    (spec cs : Bytes) (f : ℕ) (tail : Bytes)
    → All (IsFlag spec false) cs
    → (f == b'-') ≡ false
    → StartsFlag (cs ++ (f ∷ tail))
append-StartsFlag spec [] f tail a h = h
append-StartsFlag spec (c ∷ cs) f tail a h = a.0.1

parse_word :
    (spec w b : Bytes) (rest : List Bytes) (o : List Opt) (u : Bool)
    → StartsFlag w
    → flags spec (some b) w ≡ ok (o, u)
    → parse spec ((b'-' ∷ w) ∷ (b ∷ rest))
      ≡ word_round (ok (o, u)) (parse spec (b ∷ rest)) (parse spec rest)
unfolding parse is_end is_operand bytes_eq
parse_word spec [] b rest o u s h = absurd (cc s)
parse_word spec (c ∷ cs) b rest o u s h = rw (s, h) refl

render_cons :
    (gs : List Group) (rest : List Bytes)
    → (b : Bytes) × (r : List Bytes) × (render gs rest ≡ b ∷ r)
unfolding render
render_cons [] rest = (codes "--", rest, refl)
render_cons (bundle c cs ∷ gs) rest = (b'-' ∷ (c ∷ cs), render gs rest, refl)
render_cons (attached cs f b bs ∷ gs) rest = (b'-' ∷ (cs ++ (f ∷ (b ∷ bs))), render gs rest, refl)
render_cons (separate cs f arg ∷ gs) rest = (b'-' ∷ (cs ++ (f ∷ [])), arg ∷ render gs rest, refl)

-- A word that is complete, before the words of a command line.
parse_complete :
    (spec w : Bytes) (gs : List Group) (rest : List Bytes) (o p : List Opt)
    → StartsFlag w
    → ((b : Bytes) → flags spec (some b) w ≡ ok (o, false))
    → parse spec (render gs rest) ≡ ok (p, rest)
    → parse spec ((b'-' ∷ w) ∷ render gs rest) ≡ ok (o ++ p, rest)
parse_complete spec w gs rest o p s h behind =
    let (b, r, same) = render_cons gs rest in
    subst (λ line. parse spec ((b'-' ∷ w) ∷ line) ≡ ok (o ++ p, rest)) (sym same)
      (parse_word spec w b r o false s (h b)
        ∙ ap (λ q. word_round (ok (o, false)) q (parse spec r))
            (sym (ap (parse spec) same) ∙ behind))

-- `Parse` reads back what a command line says: flags bundled in a word, an option's argument in the same
-- word or in the next one, in any order, and "--" before the operands give these options in order and
-- the operands, whatever these are. It holds for flags of the spec other than the dash, each written
-- with an argument just where the spec has a colon.
pub parse-render :
    (spec : Bytes) (gs : List Group) (rest : List Bytes)
    → All (IsGroup spec) gs
    → parse spec (render gs rest) ≡ ok (all_options gs, rest)
unfolding render all_options parse is_end bytes_eq
parse-render spec [] [] a = refl
parse-render spec [] (_ ∷ _) a = refl
parse-render spec (bundle c cs ∷ gs) rest a =
    parse_complete spec (c ∷ cs) gs rest (options (bundle c cs)) (all_options gs) a.0.0.1
      (λ b. flags-bundle spec (some b) (c ∷ cs) a.0) (parse-render spec gs rest a.1)
parse-render spec (attached cs f b bs ∷ gs) rest a =
    parse_complete spec (cs ++ (f ∷ (b ∷ bs))) gs rest _ (all_options gs)
      (append-StartsFlag spec cs f (b ∷ bs) a.0.0 a.0.1.1)
      (λ n.
        flags-append spec (some n) cs _ _ false a.0.0 (flags-attached spec (some n) f b bs a.0.1.0))
      (parse-render spec gs rest a.1)
parse-render spec (separate cs f arg ∷ gs) rest a =
    parse_word spec (cs ++ (f ∷ [])) arg (render gs rest) _ true
      (append-StartsFlag spec cs f [] a.0.0 a.0.1.1)
      (flags-append spec (some arg) cs _ _ true a.0.0 (flags-separate spec arg f a.0.1.0))
    ∙ ap (word_round (ok (options (separate cs f arg), true)) (parse spec (arg ∷ render gs rest)))
        (parse-render spec gs rest a.1)
