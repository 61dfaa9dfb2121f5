-- ===== src/Ipc/Fields.antt =====
-- The scanner of internal/ipc/codec.go on the lines that internal/ipc/writer.go writes.
use mathlib.Core.List.{append_assoc}
use greyd_v.Base.{
  ℕ, suc, ◌≢◌, ◌≡◌, refl, arith, Bytes, Bool, true, false, if_rule, [], ◌∷◌, ◌++◌, All, map, any,
  not,
}
use greyd_v.Result.{ok}
use greyd_v.Core.{to_lower}
use greyd_v.Ipc.{Fields, str_value, set_field}
use greyd_v.Ipc.Scan.{
  skip, is_name_char, span, scan_name, quoted, scan_value, assignment, parse_loop,
}
use greyd_v.Ipc.Utf8.{repaired, without_none, any_none, none_any}
use greyd_v.Ipc.Writer.{is_special, sanitize, str_line}

-- A text that `Str` writes and that is read back as it is: no quote and no backslash.
abbrev pub Clean : Bytes → Type 0
Clean = All (λ c. (c ≢ 34) × (c ≢ 92))

none-Clean : (v : Bytes) → All (λ c. is_special c ≡ false) v → Clean v
none-Clean [] h = tt
none-Clean (c ∷ cs) h = let rest = none-Clean cs h.1 in ground (arith, rest, h.0)

Clean-none : (v : Bytes) → Clean v → All (λ c. is_special c ≡ false) v
Clean-none [] h = tt
Clean-none (c ∷ cs) h = let rest = Clean-none cs h.1 in ground (arith, rest, h.0)

pub sanitize-Clean : (v : Bytes) → Clean (sanitize v)
unfolding sanitize
sanitize-Clean v =
    if_rule Clean (any is_special v) (λ some. none-Clean _ (without_none is_special (repaired v)))
      λ clean. none-Clean v (any_none is_special v clean)

pub sanitize_self : (v : Bytes) → Clean v → sanitize v ≡ v
unfolding sanitize
sanitize_self v h = rw (none_any is_special v (Clean-none v h)) refl

quoted-append : (v rest : Bytes) → Clean v → quoted false (v ++ (34 ∷ rest)) ≡ ok (v, rest)
unfolding quoted
quoted-append [] rest h = refl
quoted-append (c ∷ cs) rest h = ground (arith, quoted-append cs rest h.1, h.0)

abbrev pub Named : Bytes → Type 0
Named = All (λ c. is_name_char c ≡ true)

-- A name is one by a test.
pub name-Named : (s : Bytes) → any (λ c. not (is_name_char c)) s ≡ false → Named s
name-Named [] h = tt
name-Named (c ∷ cs) h = ground (arith, name-Named cs)

span-append :
    (p : ℕ → Bool) (a : Bytes) (c : ℕ) (rest : Bytes)
    → All (λ x. p x ≡ true) a
    → p c ≡ false
    → span p (a ++ (c ∷ rest)) ≡ (a, c ∷ rest)
unfolding span
span-append p [] c rest h stop = rw stop refl
span-append p (x ∷ a) c rest h stop = rw (h.0, span-append p a c rest h.1 stop) refl

-- A name's first byte is none that is skipped.
skip_name : (n : ℕ) (rest : Bytes) → is_name_char n ≡ true → skip false (n ∷ rest) ≡ (n ∷ rest)
unfolding skip
skip_name n rest h = ground arith

abbrev tail : Bytes → Bytes → Bytes
tail v rest = 32 ∷ (61 ∷ (32 ∷ (34 ∷ (v ++ (34 ∷ (10 ∷ rest))))))

str_line-append : (name v rest : Bytes) → str_line name v ++ rest ≡ name ++ tail v rest
unfolding str_line
str_line-append name v rest = simp append_assoc

-- One line with a text, whatever follows it.
assignment-str_line :
    (n : ℕ) (ns v rest : Bytes)
    → Named (n ∷ ns)
    → Clean v
    → assignment ((n ∷ ns) ++ tail v rest) ≡ ok (map to_lower (n ∷ ns), str_value v, 10 ∷ rest)
unfolding assignment scan_name scan_value skip
assignment-str_line n ns v rest named clean =
    rw
      (
        span-append is_name_char (n ∷ ns) 32 (61 ∷ (32 ∷ (34 ∷ (v ++ (34 ∷ (10 ∷ rest)))))) named
            refl,
        quoted-append v (10 ∷ rest) clean,
      )
      refl

-- A round of the parser on such a line.
pub parse_loop-str_line :
    (fuel n : ℕ) (ns v rest : Bytes) (f : Fields)
    → Named (n ∷ ns)
    → Clean v
    → parse_loop (suc fuel) (str_line (n ∷ ns) v ++ rest) f
      ≡ parse_loop fuel (10 ∷ rest) (set_field (map to_lower (n ∷ ns)) (str_value v) f)
unfolding parse_loop
parse_loop-str_line fuel n ns v rest f named clean =
    rw
      (
        str_line-append (n ∷ ns) v rest,
        skip_name n (ns ++ tail v rest) named.0,
        assignment-str_line n ns v rest named clean,
      )
      refl

-- A newline between two lines is skipped.
pub parse_loop-newline :
    (fuel : ℕ) (rest : Bytes) (f : Fields)
    → parse_loop (suc fuel) (10 ∷ rest) f ≡ parse_loop (suc fuel) rest f
unfolding parse_loop skip
parse_loop-newline fuel rest f = refl
