-- ===== src/Cli.antt =====
-- internal/cli/getopt.go: the options of a command line, as getopt(3) reads them.
pub mod Render
use greyd_v.Base.{
  ℕ, Bytes, ◌==◌, ◌||◌, bytes_eq, if◌then◌else◌, Bool, true, false, List, [], ◌∷◌, ◌++◌, Option,
  none, some, codes,
}
use greyd_v.Result.{Result, ok, err, unknown_option, missing_argument, ◌>>=◌}

-- `Opt`
pub record Opt : Type 0 where
  pub flag : ℕ
  pub arg : Bytes

-- Whether the spec goes on with a colon.
abbrev colon_next : Bytes → Bool
colon_next [] = false
colon_next (c ∷ cs) = c == b':'

-- A flag's entry in the map `takesArg`: the last one that the spec has.
abbrev later_or : Option Bool → Option Bool → Option Bool
later_or none now = now
later_or (some b) now = some b

unfoldable pub takes_arg : Bytes → ℕ → Option Bool
takes_arg [] flag = none
takes_arg (c ∷ cs) flag =
    later_or (takes_arg cs flag)
      (if c == b':' then none else if c == flag then some (colon_next cs) else none)

-- The argument of an option, and whether it is the next word.
argument : ℕ → Bytes → Option Bytes → Result (List Opt × Bool)
argument c (b ∷ bs) next = ok (record { flag = c; arg = b ∷ bs } ∷ [], false)
argument c [] (some word) = ok (record { flag = c; arg = word } ∷ [], true)
argument c [] none = err (missing_argument c)

-- The round of the inner loop: what the map has for the flag, and what the rest of the word gives.
flag_round :
    ℕ → Bytes → Option Bytes → Result (List Opt × Bool) → Option Bool → Result (List Opt × Bool)
flag_round c cs next later none = err (unknown_option c)
flag_round c cs next later (some true) = argument c cs next
flag_round c cs next later (some false) = do
  r ← later
  ok (record { flag = c; arg = [] } ∷ r.0, r.1)

-- The inner loop, over the flags of one word.
unfoldable pub flags : Bytes → Option Bytes → Bytes → Result (List Opt × Bool)
unfolding flag_round argument takes_arg
flags spec next [] = ok ([], false)
flags spec next (c ∷ cs) = flag_round c cs next (flags spec next cs) (takes_arg spec c)

-- Whether the word is "--", or is none that holds flags: shorter than two bytes or without a dash.
unfoldable pub is_end : Bytes → Bool
unfolding bytes_eq
is_end a = bytes_eq a (codes "--")

unfoldable pub is_operand : Bytes → Bool
is_operand [] = true
is_operand (_ ∷ []) = true
is_operand (a ∷ (_ ∷ _)) = if a == b'-' then false else true

abbrev with_opts : List Opt → Result (List Opt × List Bytes) → Result (List Opt × List Bytes)
with_opts opts later = do r ← later; ok (opts ++ r.0, r.1)

-- A word's options before those of the words behind it, or behind the word that it took as an argument.
abbrev pub word_round :
    Result (List Opt × Bool)
    → Result (List Opt × List Bytes)
    → Result (List Opt × List Bytes)
    → Result (List Opt × List Bytes)
word_round (err e) next skipped = err e
word_round (ok (opts, true)) next skipped = with_opts opts skipped
word_round (ok (opts, false)) next skipped = with_opts opts next

-- The bytes behind the dash.
abbrev pub behind_dash : Bytes → Bytes
behind_dash [] = []
behind_dash (_ ∷ cs) = cs

-- `Parse`
unfoldable pub parse : Bytes → List Bytes → Result (List Opt × List Bytes)
unfolding flags is_end is_operand
parse spec [] = ok ([], [])
parse spec (a ∷ []) =
    if is_end a
    then ok ([], [])
    else if is_operand a
    then ok ([], a ∷ [])
    else word_round (flags spec none (behind_dash a)) (ok ([], [])) (ok ([], []))
parse spec (a ∷ (b ∷ rest)) =
    let next = parse spec (b ∷ rest) in
    let skipped = parse spec rest in
    if is_end a
    then ok ([], b ∷ rest)
    else if is_operand a
    then ok ([], a ∷ (b ∷ rest))
    else word_round (flags spec (some b) (behind_dash a)) next skipped
