-- ===== src/Ipc/Grey.antt =====
-- A greylist tuple on its way from the connection to the greylister: `WriteGrey` of
-- internal/ipc/writer.go, then `Next` of internal/ipc/frame.go.
use mathlib.Core.List.{append-nil}
use greyd_v.Base.{
  ℕ, zero, suc, ◌≤◌, ◌≡◌, ◌∙◌, ap, sym, refl, arith, Bytes, bytes_eq, true, false, [], ◌∷◌, ◌++◌,
  codes, length,
}
use greyd_v.Result.{Result, ok, >>=-eq-ok}
use greyd_v.Core.{to_lower}
use greyd_v.Ipc.{
  grey_message, Fields, Value, str_value, int_value, set_field, field, str_field, int_field, itoa,
  itoa_fuel,
}
use greyd_v.Ipc.Scan.{
  skip, span, scan_name, scan_number, scan_value, value_of, assignment, assign, parse_loop,
  parse_fields,
}
use greyd_v.Ipc.Classify.{need, classify}
use greyd_v.Ipc.Writer.{sanitize, str_line, int_line, grey_body}
use greyd_v.Ipc.Frame.{decode}
use greyd_v.Ipc.Fields.{sanitize-Clean, name-Named, parse_loop-str_line, parse_loop-newline}

assign-ok :
    (k l : Bytes → Fields → Result Fields) (f r : Fields) (cs : Bytes)
    → ((ds : Bytes) (g : Fields) → k ds g ≡ ok r → l ds g ≡ ok r)
    → assign k f cs ≡ ok r
    → assign l f cs ≡ ok r
unfolding assign
assign-ok k l f r [] more h = h
assign-ok k l f r (c ∷ cs) more h =
    let (a, first, rest) =
      >>=-eq-ok (assignment (c ∷ cs)) (λ (a : Bytes × Value × Bytes). k a.2 (set_field a.0 a.1 f))
        h in
    rw first (more a.2 (set_field a.0 a.1 f) rest)

-- More fuel gives the same table.
pub parse_loop-le :
    (fuel more : ℕ) (cs : Bytes) (f r : Fields)
    → fuel ≤ more
    → parse_loop fuel cs f ≡ ok r
    → parse_loop more cs f ≡ ok r
unfolding parse_loop
parse_loop-le zero more cs f r le h = absurd (cc h)
parse_loop-le (suc fuel) zero cs f r le h = absurd (omega arith)
parse_loop-le (suc fuel) (suc more) cs f r le h =
    assign-ok (parse_loop fuel) (parse_loop more) f r (skip false cs)
      (λ ds g. parse_loop-le fuel more ds g r (omega arith)) h

module _ (dst_ip ip helo sender rcpt : Bytes) where
  -- The lines after the type.
  abbrev to_line : Bytes
  to_line = str_line (codes "to") (sanitize rcpt)

  abbrev from_line : Bytes
  from_line = str_line (codes "from") (sanitize sender) ++ to_line

  abbrev helo_line : Bytes
  helo_line = str_line (codes "helo") (sanitize helo) ++ from_line

  abbrev ip_line : Bytes
  ip_line = str_line (codes "ip") (sanitize ip) ++ helo_line

  abbrev dst_line : Bytes
  dst_line = str_line (codes "dst_ip") (sanitize dst_ip) ++ ip_line

  type_line :
      (fuel : ℕ)
      → parse_loop (suc fuel) (int_line (codes "type") 1 ++ dst_line) []
        ≡ parse_loop fuel (10 ∷ dst_line) ((codes "type", int_value 1) ∷ [])
  unfolding int_line itoa itoa_fuel parse_loop assign assignment scan_name scan_number scan_value
      span value_of skip set_field
  type_line fuel = refl

  abbrev table : Fields
  table =
      (codes "type", int_value 1)
      ∷ (codes "dst_ip", str_value (sanitize dst_ip))
      ∷ (codes "ip", str_value (sanitize ip))
      ∷ (codes "helo", str_value (sanitize helo))
      ∷ (codes "from", str_value (sanitize sender))
      ∷ (codes "to", str_value (sanitize rcpt))
      ∷ []

  abbrev before_last : Fields
  before_last =
      (codes "type", int_value 1)
      ∷ (codes "dst_ip", str_value (sanitize dst_ip))
      ∷ (codes "ip", str_value (sanitize ip))
      ∷ (codes "helo", str_value (sanitize helo))
      ∷ (codes "from", str_value (sanitize sender))
      ∷ []

  parsed_body : parse_loop 7 (grey_body dst_ip ip helo sender rcpt) [] ≡ ok table
  unfolding parse_loop assign skip grey_body set_field bytes_eq to_lower
  parsed_body =
      type_line 6
      ∙ parse_loop-newline 5 dst_line ((codes "type", int_value 1) ∷ [])
      ∙ parse_loop-str_line 5 100 (codes "st_ip") (sanitize dst_ip) ip_line _
          (name-Named (codes "dst_ip") refl) (sanitize-Clean dst_ip)
      ∙ parse_loop-newline 4 ip_line _
      ∙ parse_loop-str_line 4 105 (codes "p") (sanitize ip) helo_line _
          (name-Named (codes "ip") refl) (sanitize-Clean ip)
      ∙ parse_loop-newline 3 helo_line _
      ∙ parse_loop-str_line 3 104 (codes "elo") (sanitize helo) from_line _
          (name-Named (codes "helo") refl) (sanitize-Clean helo)
      ∙ parse_loop-newline 2 from_line _
      ∙ parse_loop-str_line 2 102 (codes "rom") (sanitize sender) to_line _
          (name-Named (codes "from") refl) (sanitize-Clean sender)
      ∙ parse_loop-newline 1 to_line before_last
      ∙ ap (λ l. parse_loop 2 l before_last) (sym (append-nil to_line))
      ∙ parse_loop-str_line 1 116 (codes "o") (sanitize rcpt) [] _ (name-Named (codes "to") refl)
          (sanitize-Clean rcpt)

  long : 7 ≤ suc (length (grey_body dst_ip ip helo sender rcpt))
  unfolding grey_body int_line itoa itoa_fuel
  long = omega arith

  classified :
      classify table
      ≡ ok (
          grey_message
            (record {
              ip = sanitize ip;
              helo = sanitize helo;
              from = sanitize sender;
              to = sanitize rcpt;
            })
            (sanitize dst_ip)
            true)
  unfolding classify need str_field int_field field bytes_eq
  classified = refl

  -- What `WriteGrey` writes is decoded as the tuple, its fields without quotes and backslashes.
  pub decode-grey_body :
      decode (grey_body dst_ip ip helo sender rcpt)
      ≡ ok (
          grey_message
            (record {
              ip = sanitize ip;
              helo = sanitize helo;
              from = sanitize sender;
              to = sanitize rcpt;
            })
            (sanitize dst_ip)
            true)
  unfolding decode parse_fields
  decode-grey_body =
      rw
        (parse_loop-le 7 (suc (length (grey_body dst_ip ip helo sender rcpt)))
          (grey_body dst_ip ip helo sender rcpt) [] table long parsed_body)
        classified
