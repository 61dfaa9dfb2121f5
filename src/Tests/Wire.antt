-- ===== src/Tests/Wire.antt =====
-- The messages between the processes and between hosts on concrete inputs (internal/ipc,
-- internal/sync/wire.go).
use greyd_v.Base.{
  take, drop, ◌≤◌, ◌≡◌, refl, arith, Bytes, codes, [], ◌∷◌, ◌++◌, length, replicate, true, false,
}
use greyd_v.Core.{to_lower, normalize_email}
use greyd_v.Result.{ok}
use greyd_v.Ipc.{grey_message, itoa, itoa_fuel}
use greyd_v.Ipc.Frame.{stream_lines, next}
use greyd_v.Ipc.Writer.{sanitize, int_line, str_line, grey_body, write_grey}
use greyd_v.Ipc.Lines.{absent}
use greyd_v.Smtp.{get_addr, get_helo}
use greyd_v.Smtp.Envelope.{next-envelope}
use greyd_v.Sync.Engine.{Window, accept, is_restart, new_window, set_bit, shift_left}
use greyd_v.Sync.Engine.Replay.{Hears, hears, silence, accept-replayed}
use greyd_v.Sync.Wire.Authentic.{decode_packet-authentic}
use greyd_v.Sync.Wire.{be_at, cleared, encode_grey, encode_addr, decode_packet}
use greyd_v.Sync.Wire.RoundTrip.{decode_packet-encode_grey, decode_packet-encode_addr}

abbrev helo_line : Bytes
helo_line = codes "HELO mx.example\r"

abbrev mail_line : Bytes
mail_line = codes "MAIL FROM:<A@b.c>"

abbrev rcpt_line : Bytes
rcpt_line = codes "RCPT TO:<d@e.f>"

abbrev source : Bytes
source = codes "10.1.2.3"

abbrev more : Bytes
more = codes "type = 1\n"

body_le :
    length (
      grey_body [] source
        (get_helo helo_line)
        (normalize_email (get_addr mail_line))
        (normalize_email (get_addr rcpt_line)))
    ≤ 4096
unfolding grey_body int_line itoa itoa_fuel str_line sanitize get_helo normalize_email get_addr
    to_lower
body_le = omega arith

next-envelope_example :
    next 4096 (
      stream_lines (
        write_grey [] source
          (get_helo helo_line)
          (normalize_email (get_addr mail_line))
          (normalize_email (get_addr rcpt_line))
        ++ more))
    ≡ (
      ok (
          grey_message
            (record {
              ip = sanitize source;
              helo = sanitize (get_helo helo_line);
              from = normalize_email (get_addr mail_line);
              to = normalize_email (get_addr rcpt_line);
            })
            (sanitize [])
            true),
      stream_lines more,
    )
next-envelope_example =
    next-envelope [] source helo_line mail_line rcpt_line 4096 more tt (absent 10 source refl)
      body_le

-- A MAC that sums up nothing but the packet's length.
abbrev mac : Bytes → Bytes → Bytes
mac key m = length m ∷ replicate 19 7

abbrev helo_name : Bytes
helo_name = codes "mx"

decode_packet-encode_grey_example :
    decode_packet mac (0 ∷ []) (
      encode_grey mac
        (0 ∷ [])
        9
        (record { octets = 10 ∷ 1 ∷ 2 ∷ 3 ∷ [] })
        helo_name
        mail_line
        rcpt_line
        77)
    ≡ ok (record {
      counter = 9;
      entries =
          record {
            typ = 1;
            ip = record { octets = 10 ∷ 1 ∷ 2 ∷ 3 ∷ [] };
            helo = helo_name;
            from = mail_line;
            to = rcpt_line;
            expire = 0;
            is_delete = false;
          }
          ∷ [];
    })
decode_packet-encode_grey_example =
    decode_packet-encode_grey mac (0 ∷ []) (λ m. refl) 10 1 2 3 helo_name mail_line rcpt_line 77 9
      (omega arith) (omega arith) (absent 0 helo_name refl) (absent 0 mail_line refl)
      (absent 0 rcpt_line refl)

decode_packet-encode_addr_example :
    decode_packet mac
      (0 ∷ [])
      (encode_addr mac (0 ∷ []) 9 4 (record { octets = 10 ∷ 1 ∷ 2 ∷ 3 ∷ [] }) 77 88)
    ≡ ok (record {
      counter = 9;
      entries =
          record {
            typ = 4;
            ip = record { octets = 10 ∷ 1 ∷ 2 ∷ 3 ∷ [] };
            helo = [];
            from = [];
            to = [];
            expire = 88;
            is_delete = true;
          }
          ∷ [];
    })
decode_packet-encode_addr_example =
    decode_packet-encode_addr mac (0 ∷ []) (λ m. refl) 10 1 2 3 4 77 88 9 (omega arith)
      (omega arith) (omega arith) (omega arith)

abbrev packet : Bytes
packet = encode_addr mac (0 ∷ []) 9 4 (record { octets = 10 ∷ 1 ∷ 2 ∷ 3 ∷ [] }) 77 88

decode_packet-authentic_example :
    (be_at 2 2 packet ≤ length packet)
    × (32 ≤ be_at 2 2 packet)
    × (take 20 (drop 8 (take (be_at 2 2 packet) packet))
        ≡ mac (0 ∷ []) (cleared (take (be_at 2 2 packet) packet)))
decode_packet-authentic_example =
    decode_packet-authentic mac (0 ∷ []) _ packet decode_packet-encode_addr_example

-- Counter 5, then 9 and 7, and 5 again.
abbrev after_5 : Window
after_5 = (accept 64 5 new_window).1

abbrev after_9 : Window
after_9 = (accept 64 9 after_5).1

abbrev after_7 : Window
after_7 = (accept 64 7 after_9).1

heard_9_7 : Hears 64 (omega arith) after_5 after_7
unfolding accept is_restart set_bit shift_left
heard_9_7 = hears 9 after_5 after_7 refl (hears 7 after_9 after_7 refl (silence after_7))

accept-replayed_example : (accept 64 5 after_7).0 ≡ false
unfolding accept is_restart set_bit shift_left
accept-replayed_example =
    accept-replayed 64 (omega arith) 5 new_window after_7 refl refl heard_9_7 refl
