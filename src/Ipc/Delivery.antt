-- ===== src/Ipc/Delivery.antt =====
-- From `WriteGrey` to `Next`: the greylister reads the tuple that the connection wrote
-- (internal/ipc/writer.go, frame.go, codec.go; internal/smtp/state.go).
use mathlib.Core.List.{append_assoc}
use greyd_v.Base.{
  ℕ, ◌+◌, ◌≤◌, ◌≢◌, ◌≡◌, ◌∙◌, ap, sym, refl, arith, Bytes, true, false, List, [], ◌∷◌, ◌++◌, codes,
  All, All-append, length, any, ◌==◌,
}
use greyd_v.Result.{ok}
use greyd_v.Ipc.{grey_message, itoa, itoa_fuel}
use greyd_v.Ipc.Scan.{is_name_char}
use greyd_v.Ipc.Writer.{sanitize, terminator, str_line, int_line, grey_body, write_grey}
use greyd_v.Ipc.Frame.{stream_lines, next_raw, next}
use greyd_v.Ipc.Lines.{NoNewline, absent, sanitize-NoNewline, IsLine, line, joined, next_raw-joined}
use greyd_v.Ipc.Grey.{decode-grey_body}

abbrev text_line : Bytes → Bytes → Bytes
text_line name v = name ++ (codes " = \"" ++ (sanitize v ++ codes "\""))

text_line-IsLine :
    (c : ℕ) (cs v : Bytes)
    → is_name_char c ≡ true
    → any (λ d. d == 10) (c ∷ cs) ≡ false
    → NoNewline v
    → IsLine (text_line (c ∷ cs) v)
text_line-IsLine c cs v h named n = line c (cs ++ (codes " = \"" ++ (sanitize v ++ codes "\""))) h (
    All-append (λ d. d ≢ 10) (c ∷ cs) (codes " = \"" ++ (sanitize v ++ codes "\""))
      (absent 10 (c ∷ cs) named)
      (All-append (λ d. d ≢ 10) (codes " = \"") (sanitize v ++ codes "\"")
        (absent 10 (codes " = \"") refl)
        (All-append (λ d. d ≢ 10) (sanitize v) (codes "\"") (sanitize-NoNewline v n)
          (absent 10 (codes "\"") refl))))

module _ (dst_ip ip helo sender rcpt : Bytes) where
  abbrev lines : List Bytes
  lines =
      codes "type = 1"
      ∷ text_line (codes "dst_ip") dst_ip
      ∷ text_line (codes "ip") ip
      ∷ text_line (codes "helo") helo
      ∷ text_line (codes "from") sender
      ∷ text_line (codes "to") rcpt
      ∷ []

  grey_body-joined : grey_body dst_ip ip helo sender rcpt ≡ joined lines
  unfolding grey_body str_line int_line itoa itoa_fuel joined
  grey_body-joined = simp append_assoc

  -- What the connection writes of an envelope without newlines, within the frame limit, the
  -- greylister reads as the tuple, its fields without quotes and backslashes, and goes on with what
  -- was written after it.
  pub next-write_grey :
      (max : ℕ) (rest : Bytes)
      → NoNewline dst_ip
      → NoNewline ip
      → NoNewline helo
      → NoNewline sender
      → NoNewline rcpt
      → length (grey_body dst_ip ip helo sender rcpt) ≤ max
      → next max (stream_lines (write_grey dst_ip ip helo sender rcpt ++ rest)) ≡ (
        ok (
            grey_message
              (record {
                ip = sanitize ip;
                helo = sanitize helo;
                from = sanitize sender;
                to = sanitize rcpt;
              })
              (sanitize dst_ip)
              true),
        stream_lines rest,
      )
  unfolding next write_grey
  next-write_grey max rest a b c d e fits =
      let are_lines : All IsLine lines = (
        line 116 (codes "ype = 1") refl (absent 10 (codes "type = 1") refl),
        (
          text_line-IsLine 100 (codes "st_ip") dst_ip refl refl a,
          (
            text_line-IsLine 105 (codes "p") ip refl refl b,
            (
              text_line-IsLine 104 (codes "elo") helo refl refl c,
              (
                text_line-IsLine 102 (codes "rom") sender refl refl d,
                (text_line-IsLine 116 (codes "o") rcpt refl refl e, tt),
              ),
            ),
          ),
        ),
      ) in
      let body = grey_body dst_ip ip helo sender rcpt in
      let same : length (joined lines) ≡ length body = ap length (sym grey_body-joined) in
      let short : length {A = ℕ} [] + length (joined lines) ≤ max = omega arith in
      let framed : next_raw max [] (stream_lines ((body ++ terminator) ++ rest))
          ≡ (ok body, stream_lines rest) =
        ap (λ x. next_raw max [] (stream_lines x)) (append_assoc body terminator rest)
        ∙ ap (λ x. next_raw max [] (stream_lines (x ++ (terminator ++ rest)))) grey_body-joined
        ∙ next_raw-joined max [] lines rest are_lines short
        ∙ ap (λ x. (ok x, stream_lines rest)) (sym grey_body-joined) in
      rw (framed, decode-grey_body dst_ip ip helo sender rcpt) refl
