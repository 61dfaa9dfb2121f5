-- ===== src/Spamdlist/Tokens.antt =====
-- The values that internal/spamdlist/scanner.go reads: a prefix length or an octet.
use greyd_v.Base.{
  ℕ, zero, suc, ◌+◌, ◌-◌, ◌*◌, ◌≤◌, ◌==◌, Bytes, true, false, not, ◌||◌, ◌≡◌, if_rule, ltb, leb,
  leb→le, [], ◌∷◌, Option, none, some, arith, length,
}
use greyd_v.Spamdlist.Scanner.{
  Scanner, Token, TokenKind, int6, int8, eof_token, eol, dot, dash, slash, scan_number,
  number_token, skip_comment, scan_byte, next_step, next_fuel, next, take_byte, at_end, resume,
  plain, is_digit, from_rest,
}

-- The value fits the kind; a token that is not a number has the value 0.
pub data Fits : Token → Type 0 where
  fits_int6 : (n : ℕ) → n ≤ 63 → Fits (record { kind = int6; val = n })
  fits_int8 : (n : ℕ) → 64 ≤ n → n ≤ 255 → Fits (record { kind = int8; val = n })
  fits_plain : (k : TokenKind) → Fits (plain k)

scan_number-le : (ds : Bytes) (i : ℕ) (s : Scanner) → i ≤ 255 → (scan_number ds i s).0 ≤ 255
unfolding scan_number
scan_number-le [] i s h = h
scan_number-le (d ∷ ds) i s h =
    if_rule Small (not (is_digit d)) (λ other. h)
      λ digit.
        if_rule Small (ltb 255 (i * 10 + (d - 48))) (λ big. h)
          λ fits.
            scan_number-le ds (i * 10 + (d - 48)) (take_byte d ds s)
              (in_range (i * 10 + (d - 48)) fits)
  where
    Small : ℕ × Scanner → Type 0
    Small r = r.0 ≤ 255

    in_range : (n : ℕ) → ltb 255 n ≡ false → n ≤ 255
    in_range n e = ground arith

number_token-Fits : (r : ℕ × Scanner) → r.0 ≤ 255 → Fits (number_token r).0
unfolding number_token
number_token-Fits (i, s) h =
    if_rule FitsToken (leb i 63) (λ small. fits_int6 i (leb→le i 63 small))
      λ big. fits_int8 i (past_63 i big) h
  where
    FitsToken : Token × Scanner → Type 0
    FitsToken r = Fits r.0

    past_63 : (n : ℕ) → leb n 63 ≡ false → 64 ≤ n
    past_63 n e = ground arith

-- Of a token, if there is one.
data AllFit : Option Token × Scanner → Type 0 where
  no_token : (s : Scanner) → AllFit (none, s)
  token : (t : Token) (s : Scanner) → Fits t → AllFit (some t, s)

scan_byte-AllFit : (c : ℕ) (s : Scanner) → AllFit (scan_byte c s)
unfolding scan_byte
scan_byte-AllFit c s =
    if_rule AllFit (is_digit c)
      (λ digit.
        token (number_token (scan_number s.rest (c - 48) s)).0
          (number_token (scan_number s.rest (c - 48) s)).1
          (number_token-Fits (scan_number s.rest (c - 48) s)
            (scan_number-le s.rest (c - 48) s (first_digit c digit))))
      λ other.
        if_rule AllFit (c == 32 || (c == 9 || c == 13)) (λ blank. no_token s)
          λ mark.
            if_rule AllFit (c == 35) (λ comment. no_token (skip_comment s.rest s))
              λ no_comment.
                if_rule AllFit (c == 10) (λ e. token (plain eol) s (fits_plain eol))
                  λ no_eol.
                    if_rule AllFit (c == 46) (λ e. token (plain dot) s (fits_plain dot))
                      λ no_dot.
                        if_rule AllFit (c == 45) (λ e. token (plain dash) s (fits_plain dash))
                          λ no_dash.
                            if_rule AllFit (c == 47) (λ e. token (plain slash) s (fits_plain slash))
                              λ no_slash. token (plain eof_token) (at_end s) (fits_plain eof_token)
  where
    first_digit : (d : ℕ) → is_digit d ≡ true → d - 48 ≤ 255
    first_digit d h = ground arith

from_rest-AllFit : (bytes : Bytes) (s : Scanner) → AllFit (from_rest bytes s)
unfolding from_rest
from_rest-AllFit [] s = token (plain eof_token) (at_end s) (fits_plain eof_token)
from_rest-AllFit (c ∷ cs) s = scan_byte-AllFit c (take_byte c cs s)

next_step-AllFit : (s : Scanner) → AllFit (next_step s)
unfolding next_step
next_step-AllFit s =
    if_rule AllFit s.eof (λ done. token (plain eof_token) s (fits_plain eof_token))
      λ live. from_rest-AllFit s.rest s

resume-Fits :
    (r : Option Token × Scanner) (later : Token × Scanner)
    → AllFit r
    → Fits later.0
    → Fits (resume r later).0
resume-Fits (none, s) later h fits = fits
resume-Fits (some t, s) later (token _ _ h) fits = h

next_fuel-Fits : (fuel : ℕ) (s : Scanner) → Fits (next_fuel fuel s).0
unfolding next_fuel
next_fuel-Fits zero s = fits_plain eof_token
next_fuel-Fits (suc fuel) s =
    resume-Fits (next_step s) (next_fuel fuel (next_step s).1) (next_step-AllFit s)
      (next_fuel-Fits fuel (next_step s).1)

-- Whatever bytes are left, the next token is a number up to 63 of the kind for prefix lengths and
-- octets, a number from 64 to 255 of the kind for octets, or a token of another kind with value 0.
pub next-Fits : (s : Scanner) → Fits (next s).0
unfolding next
next-Fits s = next_fuel-Fits (suc (length s.rest)) s
