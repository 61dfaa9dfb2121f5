-- ===== src/Smtp/Text.antt =====
-- The text helpers of internal/smtp/state.go and internal/smtp/conn.go.
use greyd_v.Base.{
  ℕ, zero, suc, ◌-◌, List, Bytes, ◌==◌, if◌then◌else◌, bytes_eq, Bool, false, not, ◌&&◌, ◌||◌, ltb,
  [], ◌∷◌, Option, none, some, length, take, drop, map,
}
use greyd_v.Core.{to_lower}
use greyd_v.Kv.{cut}

-- `match`: the input starts with the command, whatever the case of its letters.
unfoldable pub match_cmd : Bytes → Bytes → Bool
unfolding bytes_eq to_lower
match_cmd input cmd =
    not (ltb (length input) (length cmd))
    && bytes_eq (map to_lower (take (length cmd) input)) (map to_lower cmd)

-- How many bytes the white space character at the front has, after unicode.IsSpace; 0 where there is
-- none.
unfoldable pub space_width : Bytes → ℕ
space_width [] = 0
space_width (a ∷ []) = if a == 32 || (ltb 8 a && ltb a 14) then 1 else 0
space_width (a ∷ b ∷ []) =
    if a == 32 || (ltb 8 a && ltb a 14)
    then 1
    else if a == 194 && (b == 133 || b == 160)
    then 2
    else 0
space_width (a ∷ b ∷ c ∷ rest) =
    if a == 32 || (ltb 8 a && ltb a 14)
    then 1
    else if a == 194 && (b == 133 || b == 160)
    then 2
    else if a == 225 && (b == 154 && c == 128)
    then 3
    else if a == 226
        && (b == 128 && ((ltb 127 c && ltb c 139) || (c == 168 || (c == 169 || c == 175)))
            || (b == 129 && c == 159))
    then 3
    else if a == 227 && (b == 128 && c == 128)
    then 3
    else 0

-- The word at the front, which may be empty, and the later ones.
abbrev pub flush : Bytes × List Bytes → List Bytes
flush ([], later) = later
flush (c ∷ cs, later) = (c ∷ cs) ∷ later

-- The number counts the bytes left of a white space character.
unfoldable pub words_from : ℕ → Bytes → Bytes × List Bytes
unfolding space_width
words_from n [] = ([], [])
words_from (suc n) (c ∷ cs) = words_from n cs
words_from zero (c ∷ cs) =
    let width = space_width (c ∷ cs) in
    let rest = words_from (width - 1) cs in
    if width == 0 then (c ∷ rest.0, rest.1) else ([], flush rest)

-- `strings.Fields`
unfoldable pub fields : Bytes → List Bytes
unfolding words_from
fields s = flush (words_from 0 s)

-- The first field, or nothing where there is none.
abbrev pub leading : List Bytes → Bytes
leading [] = []
leading (w ∷ ws) = w

unfoldable pub first_field : Bytes → Bytes
unfolding fields
first_field s = leading (fields s)

unfoldable pub get_helo : Bytes → Bytes
unfolding first_field
get_helo input = if ltb (length input) 4 then [] else first_field (drop 4 input)

unfoldable pub after_colon : Option (Bytes × Bytes) → Bytes
unfolding first_field
after_colon none = []
after_colon (some (a, r)) = first_field r

-- The argument of MAIL FROM: and RCPT TO:.
unfoldable pub get_addr : Bytes → Bytes
unfolding after_colon cut
get_addr input = after_colon (cut b':' input)

-- `crlf`; the flag is whether the byte before is a CR.
unfoldable pub crlf_from : Bool → Bytes → Bytes
crlf_from after_cr [] = []
crlf_from after_cr (c ∷ cs) =
    let rest = c ∷ crlf_from (c == 13) cs in if c == 10 && not after_cr then 13 ∷ rest else rest

unfoldable pub crlf : Bytes → Bytes
unfolding crlf_from
crlf = crlf_from false
