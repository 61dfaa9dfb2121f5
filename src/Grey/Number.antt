-- ===== src/Grey/Number.antt =====
-- strconv.ParseInt(s, 10, 64): an optional sign and decimal digits, within the range of an int64.
use greyd_v.Base.{
  ℕ, ◌+◌, ◌*◌, ◌-◌, ◌^◌, Bytes, ◌==◌, ◌&&◌, if◌then◌else◌, Bool, leb, ltb, [], ◌∷◌, Option, none,
  some,
}
use greyd_v.Base.Int.{ℤ, pos, negsuc}

abbrev is_digit : ℕ → Bool
is_digit c = leb b'0' c && leb c b'9'

digits : ℕ → Bytes → Option ℕ
digits n [] = some n
digits n (c ∷ cs) = let rest = digits (n * 10 + (c - b'0')) cs in if is_digit c then rest else none

-- At least one digit.
unsigned : Bytes → Option ℕ
unfolding digits
unsigned [] = none
unsigned cs = digits 0 cs

non_negative : Option ℕ → Option ℤ
non_negative none = none
non_negative (some n) = if ltb n (2 ^ 63) then some (pos n) else none

negated : Option ℕ → Option ℤ
negated none = none
negated (some n) =
    if n == 0 then some (pos 0) else if leb n (2 ^ 63) then some (negsuc (n - 1)) else none

unfoldable pub parse_int : Bytes → Option ℤ
unfolding unsigned non_negative negated
parse_int [] = none
parse_int (c ∷ cs) =
    if c == b'-'
    then negated (unsigned cs)
    else if c == b'+'
    then non_negative (unsigned cs)
    else non_negative (unsigned (c ∷ cs))
