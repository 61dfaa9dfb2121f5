-- ===== src/Ipc/Scan.antt =====
-- The scanner of internal/ipc/codec.go. A position is given by the bytes that are left.
use greyd_v.Base.{
  ℕ, zero, suc, ◌+◌, ◌-◌, ◌*◌, ◌^◌, ◌==◌, Bytes, if◌then◌else◌, Bool, true, false, not, ◌&&◌, ◌||◌,
  ltb, leb, List, [], ◌∷◌, Option, none, some, length, map,
}
use greyd_v.Result.{Result, ok, err, syntax_error, ◌>>=◌}
use greyd_v.Core.{to_lower}
use greyd_v.Ipc.{Value, int_value, str_value, list_value, Fields, set_field, itoa}

abbrev pub is_blank : ℕ → Bool
is_blank c = c == 32 || (c == 9 || (c == 13 || (c == 10 || (c == b';' || c == b','))))

-- `skipSpace`; the flag is whether a comment is being skipped.
unfoldable pub skip : Bool → Bytes → Bytes
skip comment [] = []
skip true (c ∷ cs) = skip (not (c == 10)) cs
skip false (c ∷ cs) =
    let rest = skip (c == b'#') cs in if is_blank c || c == b'#' then rest else c ∷ cs

abbrev pub is_digit : ℕ → Bool
is_digit c = leb b'0' c && leb c b'9'

abbrev pub is_name_char : ℕ → Bool
is_name_char c =
    c == b'_' || ((leb b'a' c && leb c b'z') || ((leb b'A' c && leb c b'Z') || is_digit c))

-- The bytes up to the first that is not in the class, and the rest.
unfoldable pub span : (ℕ → Bool) → Bytes → Bytes × Bytes
span p [] = ([], [])
span p (c ∷ cs) = let r = span p cs in if p c then (c ∷ r.0, r.1) else ([], c ∷ cs)

-- `name`
name_from : Bytes × Bytes → Result (Bytes × Bytes)
name_from ([], rest) = err (syntax_error (length rest))
name_from (c ∷ cs, rest) = ok (c ∷ cs, rest)

unfoldable pub scan_name : Bytes → Result (Bytes × Bytes)
unfolding name_from span
scan_name cs = name_from (span is_name_char cs)

-- `number`: none, with nothing read, where there is no digit or the value is no int.
unfoldable pub value_of : ℕ → Bytes → ℕ
value_of acc [] = acc
value_of acc (d ∷ ds) = value_of (acc * 10 + (d - b'0')) ds

number_from : Bytes × Bytes → Option (ℕ × Bytes)
unfolding value_of
number_from ([], rest) = none
number_from (d ∷ ds, rest) =
    let n = value_of 0 (d ∷ ds) in if ltb n (2 ^ 63) then some (n, rest) else none

unfoldable pub scan_number : Bytes → Option (ℕ × Bytes)
unfolding number_from span
scan_number cs = number_from (span is_digit cs)

-- `quoted` after the opening quote; the flag is whether the byte before was a backslash.
abbrev pub push : ℕ → Result (Bytes × Bytes) → Result (Bytes × Bytes)
push c (ok (s, rest)) = ok (c ∷ s, rest)
push c (err e) = err e

unfoldable pub quoted : Bool → Bytes → Result (Bytes × Bytes)
quoted escaped [] = err (syntax_error 0)
quoted true (c ∷ cs) = push c (quoted false cs)
quoted false (c ∷ cs) =
    let more = quoted (c == 92) cs in
    if c == 92 then more else if c == 34 then ok ([], cs) else push c more

-- The loop over a list's items: every item takes a byte.
abbrev add_item : Bytes → Result (List Bytes × Bytes) → Result (List Bytes × Bytes)
add_item s (ok (l, rest)) = ok (s ∷ l, rest)
add_item s (err e) = err e

number_item :
    (Bytes → Result (List Bytes × Bytes)) → Bytes → Option (ℕ × Bytes) → Result (List Bytes × Bytes)
number_item later cs none = err (syntax_error (length cs))
number_item later cs (some (n, rest)) = add_item (itoa n) (later rest)

item : (Bytes → Result (List Bytes × Bytes)) → Bytes → Result (List Bytes × Bytes)
unfolding number_item
item later [] = err (syntax_error 0)
item later (c ∷ cs) =
    if c == b']'
    then ok ([], cs)
    else if c == 34
    then (do r ← quoted false cs; add_item r.0 (later r.1))
    else number_item later (c ∷ cs) (scan_number (c ∷ cs))

unfoldable pub items : ℕ → Bytes → Result (List Bytes × Bytes)
unfolding item
items zero cs = err (syntax_error (length cs))
items (suc fuel) cs = item (items fuel) (skip false cs)

-- `value`
number_value : Bytes → Option (ℕ × Bytes) → Result (Value × Bytes)
number_value cs none = err (syntax_error (length cs))
number_value cs (some (n, rest)) = ok (int_value n, rest)

unfoldable pub scan_value : Bytes → Result (Value × Bytes)
unfolding number_value
scan_value [] = err (syntax_error 0)
scan_value (c ∷ cs) =
    if c == 34
    then (do r ← quoted false cs; ok (str_value r.0, r.1))
    else if c == b'['
    then (do r ← items (suc (length cs)) cs; ok (list_value r.0, r.1))
    else number_value (c ∷ cs) (scan_number (c ∷ cs))

-- The rest after `consume('=')`.
after_equals : Bytes → Result Bytes
after_equals [] = err (syntax_error 0)
after_equals (c ∷ cs) = if c == b'=' then ok cs else err (syntax_error (length (c ∷ cs)))

-- One assignment: the lower case name, the value and the rest.
unfoldable pub assignment : Bytes → Result (Bytes × Value × Bytes)
unfolding after_equals to_lower
assignment cs = do
  n ← scan_name cs
  rest ← after_equals (skip false n.1)
  v ← scan_value (skip false rest)
  ok (map to_lower n.0, v.0, v.1)

-- The loop of `parseFields`: every assignment takes a byte.
unfoldable pub assign : (Bytes → Fields → Result Fields) → Fields → Bytes → Result Fields
assign later f [] = ok f
assign later f (c ∷ cs) = do a ← assignment (c ∷ cs); later a.2 (set_field a.0 a.1 f)

unfoldable pub parse_loop : ℕ → Bytes → Fields → Result Fields
unfolding assign
parse_loop zero cs f = err (syntax_error (length cs))
parse_loop (suc fuel) cs f = assign (parse_loop fuel) f (skip false cs)

unfoldable pub parse_fields : Bytes → Result Fields
parse_fields body = parse_loop (suc (length body)) body []
