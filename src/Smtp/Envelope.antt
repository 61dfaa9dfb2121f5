-- ===== src/Smtp/Envelope.antt =====
-- The envelope of a connection (internal/smtp/state.go) as the greylister reads it (internal/ipc).
use greyd_v.Base.{
  ℕ, zero, suc, ◌-◌, ◌+◌, ◌==◌, ◌≤◌, ◌≢◌, ◌≡◌, ◌∙◌, ap, List, arith, Bytes, true, ltb, if_rule, [],
  ◌∷◌, ◌++◌, Option, none, some, All, length, drop,
}
use greyd_v.Result.{Result, ok}
use greyd_v.Core.{to_lower, normalize_from, normalize_email}
use greyd_v.Core.Email.{IsNormal, normalize_email-IsNormal}
use greyd_v.Kv.{cut}
use greyd_v.Smtp.{get_addr, get_helo, first_field}
use greyd_v.Smtp.Text.{space_width, flush, words_from, fields, leading, after_colon}
use greyd_v.Ipc.{Message, grey_message}
use greyd_v.Ipc.Writer.{sanitize, grey_body, write_grey}
use greyd_v.Ipc.Frame.{stream_lines, next}
use greyd_v.Ipc.Fields.{Clean, sanitize_self}
use greyd_v.Ipc.Lines.{NoNewline}
use greyd_v.Ipc.Delivery.{next-write_grey}

-- Where there is no white space the byte is no newline.
space_width_newline : (c : ℕ) (cs : Bytes) → (space_width (c ∷ cs) == 0) ≡ true → c ≢ 10
unfolding space_width
space_width_newline c [] h e = ground arith
space_width_newline c (a ∷ []) h e = ground arith
space_width_newline c (a ∷ b ∷ cs) h e = ground arith

flush-NoNewline :
    (r : Bytes × List Bytes) → NoNewline r.0 → All NoNewline r.1 → All NoNewline (flush r)
flush-NoNewline ([], later) h k = k
flush-NoNewline (c ∷ cs, later) h k = (h, k)

leading-NoNewline : (ws : List Bytes) → All NoNewline ws → NoNewline (leading ws)
leading-NoNewline [] h = tt
leading-NoNewline (w ∷ ws) h = h.0

-- No word has a newline.
words_from-NoNewline :
    (n : ℕ) (cs : Bytes) → NoNewline (words_from n cs).0 × All NoNewline (words_from n cs).1
unfolding words_from
words_from-NoNewline n [] = (tt, tt)
words_from-NoNewline (suc n) (c ∷ cs) = words_from-NoNewline n cs
words_from-NoNewline zero (c ∷ cs) =
    let rest = words_from-NoNewline (space_width (c ∷ cs) - 1) cs in
    if_rule (λ (r : Bytes × List Bytes). NoNewline r.0 × All NoNewline r.1)
      (space_width (c ∷ cs) == 0) (λ inside. ((space_width_newline c cs inside, rest.0), rest.1))
      λ space. (tt, flush-NoNewline (words_from (space_width (c ∷ cs) - 1) cs) rest.0 rest.1)

first_field-NoNewline : (cs : Bytes) → NoNewline (first_field cs)
unfolding first_field fields
first_field-NoNewline cs =
    let both = words_from-NoNewline 0 cs in
    leading-NoNewline (fields cs) (flush-NoNewline (words_from 0 cs) both.0 both.1)

get_helo-NoNewline : (s : Bytes) → NoNewline (get_helo s)
unfolding get_helo
get_helo-NoNewline s =
    if_rule NoNewline (ltb (length s) 4) (λ short. tt) λ long. first_field-NoNewline (drop 4 s)

after_colon-NoNewline : (o : Option (Bytes × Bytes)) → NoNewline (after_colon o)
unfolding after_colon
after_colon-NoNewline none = tt
after_colon-NoNewline (some (a, r)) = first_field-NoNewline r

get_addr-NoNewline : (s : Bytes) → NoNewline (get_addr s)
unfolding get_addr
get_addr-NoNewline s = after_colon-NoNewline (cut b':' s)

to_lower_ne : (c : ℕ) → c ≢ 10 → to_lower c ≢ 10
unfolding to_lower
to_lower_ne c h e = ground arith

normalize_from-NoNewline : (n : ℕ) (cs : Bytes) → NoNewline cs → NoNewline (normalize_from n cs)
unfolding normalize_from
normalize_from-NoNewline n [] h = tt
normalize_from-NoNewline n (c ∷ cs) h =
    let same = normalize_from-NoNewline n cs h.1 in
    let next = normalize_from-NoNewline (n + 1) cs h.1 in
    let first = to_lower_ne c h.0 in ground (arith, same, next, first)

normalize_email-NoNewline : (cs : Bytes) → NoNewline cs → NoNewline (normalize_email cs)
unfolding normalize_email
normalize_email-NoNewline cs h = normalize_from-NoNewline 0 cs h

IsNormal-Clean : (cs : Bytes) → All IsNormal cs → Clean cs
IsNormal-Clean [] h = tt
IsNormal-Clean (c ∷ cs) h = let rest = IsNormal-Clean cs h.1 in ground (arith, rest, h.0)

normalized_self : (a : Bytes) → sanitize (normalize_email a) ≡ normalize_email a
normalized_self a =
    sanitize_self (normalize_email a)
      (IsNormal-Clean (normalize_email a) (normalize_email-IsNormal a).1)

-- The sender and the recipient that were read from any two lines, and the HELO name of a third,
-- reach the greylister in the tuple's fields, the addresses byte for byte, the name and the client's
-- address without quotes and backslashes. The addresses of the hosts have no newline, and the
-- message is within the frame limit.
pub next-envelope :
    (dst_ip src helo_in mail_in rcpt_in : Bytes) (max : ℕ) (rest : Bytes)
    → NoNewline dst_ip
    → NoNewline src
    → length (
        grey_body dst_ip src
          (get_helo helo_in)
          (normalize_email (get_addr mail_in))
          (normalize_email (get_addr rcpt_in)))
      ≤ max
    → next max (
        stream_lines (
          write_grey dst_ip src
            (get_helo helo_in)
            (normalize_email (get_addr mail_in))
            (normalize_email (get_addr rcpt_in))
          ++ rest))
      ≡ (
        ok (
            grey_message
              (record {
                ip = sanitize src;
                helo = sanitize (get_helo helo_in);
                from = normalize_email (get_addr mail_in);
                to = normalize_email (get_addr rcpt_in);
              })
              (sanitize dst_ip)
              true),
        stream_lines rest,
      )
next-envelope dst_ip src h m r max rest nd ns fits =
    let sender = normalize_email (get_addr m) in
    let rcpt = normalize_email (get_addr r) in
    let name = get_helo h in
    let read : Bytes → Bytes → Result Message × List Bytes = λ x y. (
      ok (
          grey_message (record { ip = sanitize src; helo = sanitize name; from = x; to = y })
            (sanitize dst_ip) true),
      stream_lines rest,
    ) in
    next-write_grey dst_ip src name sender rcpt max rest nd ns (get_helo-NoNewline h)
      (normalize_email-NoNewline (get_addr m) (get_addr-NoNewline m))
      (normalize_email-NoNewline (get_addr r) (get_addr-NoNewline r)) fits
    ∙ ap (λ x. read x (sanitize rcpt)) (normalized_self (get_addr m))
    ∙ ap (λ y. read sender y) (normalized_self (get_addr r))
