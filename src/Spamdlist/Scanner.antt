-- ===== src/Spamdlist/Scanner.antt =====
-- internal/spamdlist/scanner.go. The reader's remaining bytes stand for its position, so reading a
-- byte again after ungetc is not to take it.
use greyd_v.Base.{
  ℕ, zero, suc, ◌+◌, ◌-◌, ◌*◌, ◌==◌, if◌then◌else◌, Bytes, Bool, true, false, not, ◌&&◌, ◌||◌, ltb,
  leb, [], ◌∷◌, Option, none, some, length,
}

pub data TokenKind : Type 0 where
  eof_token : TokenKind
  eol : TokenKind
  int6 : TokenKind
  int8 : TokenKind
  dot : TokenKind
  dash : TokenKind
  slash : TokenKind

pub record Token : Type 0 where
  pub kind : TokenKind
  pub val : ℕ

-- What is left to read, the position, and the end flag.
pub record Scanner : Type 0 where
  pub rest : Bytes
  pub line : ℕ
  pub col : ℕ
  pub eof : Bool

abbrev max_int6 : ℕ
max_int6 = 63

abbrev max_int8 : ℕ
max_int8 = 255

unfoldable pub new_scanner : Bytes → Scanner
new_scanner bytes = record { rest = bytes; line = 0; col = 0; eof = false }

-- `getc` on the byte `c`, with `cs` after it.
abbrev pub take_byte : ℕ → Bytes → Scanner → Scanner
take_byte c cs s =
    if c == 10
    then record s { rest = cs; line = s.line + 1; col = 0 }
    else record s { rest = cs; col = s.col + 1 }

abbrev pub at_end : Scanner → Scanner
at_end s = record s { rest = []; eof = true }

abbrev pub is_digit : ℕ → Bool
is_digit c = leb 48 c && leb c 57

-- The loop over the digits of a number, which stops before a digit that would pass 255.
unfoldable pub scan_number : Bytes → ℕ → Scanner → ℕ × Scanner
scan_number [] i s = (i, at_end s)
scan_number (d ∷ ds) i s =
    let j = i * 10 + (d - 48) in
    let more = scan_number ds j (take_byte d ds s) in
    if not (is_digit d) then (i, s) else if ltb max_int8 j then (i, s) else more

unfoldable pub number_token : ℕ × Scanner → Token × Scanner
number_token (i, s) =
    if leb i max_int6
    then (record { kind = int6; val = i }, s)
    else (record { kind = int8; val = i }, s)

-- The loop over a comment, up to its line's end.
unfoldable pub skip_comment : Bytes → Scanner → Scanner
skip_comment [] s = at_end s
skip_comment (d ∷ ds) s =
    let more = skip_comment ds (take_byte d ds s) in if d == 10 then s else more

abbrev pub plain : TokenKind → Token
plain k = record { kind = k; val = 0 }

-- The first byte of a token: a number, a blank or a comment (none), a mark, or an unknown byte.
unfoldable pub scan_byte : ℕ → Scanner → Option Token × Scanner
unfolding skip_comment number_token scan_number
scan_byte c s =
    if is_digit c
    then (let r = number_token (scan_number s.rest (c - 48) s) in (some r.0, r.1))
    else if c == 32 || (c == 9 || c == 13)
    then (none, s)
    else if c == 35
    then (none, skip_comment s.rest s)
    else if c == 10
    then (some (plain eol), s)
    else if c == 46
    then (some (plain dot), s)
    else if c == 45
    then (some (plain dash), s)
    else if c == 47
    then (some (plain slash), s)
    else (some (plain eof_token), at_end s)

-- `getc`, with its failure at the end of the input.
unfoldable pub from_rest : Bytes → Scanner → Option Token × Scanner
from_rest [] s = (some (plain eof_token), at_end s)
from_rest (c ∷ cs) s = scan_byte c (take_byte c cs s)

-- One round of the loop of `Next`.
unfoldable pub next_step : Scanner → Option Token × Scanner
unfolding from_rest
next_step s = if s.eof then (some (plain eof_token), s) else from_rest s.rest s

abbrev pub resume : Option Token × Scanner → Token × Scanner → Token × Scanner
resume (none, s) later = later
resume (some t, s) later = (t, s)

-- `Next`: each round of the loop takes a byte or is the last.
unfoldable pub next_fuel : ℕ → Scanner → Token × Scanner
unfolding next_step
next_fuel zero s = (plain eof_token, s)
next_fuel (suc fuel) s = let r = next_step s in let later = next_fuel fuel r.1 in resume r later

unfoldable pub next : Scanner → Token × Scanner
next s = next_fuel (suc (length s.rest)) s
