-- ===== src/Tests/Session.antt =====
-- Whole connections on concrete inputs (internal/smtp).
use greyd_v.Base.{
  Bytes, codes, List, [], ◌∷◌, ◌++◌, none, some, ◌≤◌, arith, length, drop, bytes_eq, if◌then◌else◌,
  replicate, true, false, ◌≡◌, refl,
}
use greyd_v.Result.{ok}
use greyd_v.Ip.{unmap}
use greyd_v.Ip.{Addr}
use greyd_v.Ipc.{itoa, itoa_fuel}
use greyd_v.Blacklist.{Blacklist, new_blacklist, list_storage, is_match, covers}
use greyd_v.Smtp.{Config, Conn, set_out, match_cmd}
use greyd_v.Smtp.Text.{crlf, crlf_from}
use greyd_v.Smtp.Replies.{Writes, rest, more, reply-sent}
use greyd_v.Smtp.Proxied.{Names, by_line, Judged, apply_proxy_header-Judged}
use greyd_v.Smtp.Proxy.{
  Env, apply_proxy_header, parse_proxy_header, parse_proxy_header_v2, proxy_v2_signature, proxied,
}
use greyd_v.Smtp.Io.{
  Sink, new_conn, serve, write, write_from, write_pending, calmed, after_cr, after_write,
  within_max,
}
use greyd_v.Smtp.Invariant.{view}
use greyd_v.Smtp.Accounting.{Counted, serve-Counted}
use greyd_v.Smtp.Clean.{CleanView, serve-CleanView}
use greyd_v.Smtp.Counters.{new_counters}
use greyd_v.Tests.Parts.{
  settings, session, network, surroundings, peer, after_first, no_clients, is_admitted,
}

-- What a client sends, in the pieces in which it arrives.
abbrev dialogue : List Bytes
dialogue =
    codes "HELO m"
    ∷ codes "x\r\n"
    ∷ codes "MAIL FROM:<a@b>\r\n"
    ∷ codes "RCPT TO:<c@d>\r\n"
    ∷ codes "DATA\r\n"
    ∷ []

abbrev sink : Sink
sink = record { sent = []; succeeds = replicate 600 true; slept = 0 }

serve-Counted_example :
    Counted settings surroundings after_first []
      (view (serve settings surroundings 40 (new_conn settings surroundings peer) dialogue sink).0)
unfolding unmap
serve-Counted_example =
    serve-Counted settings surroundings after_first [] (new_counters 800 700) peer 40 dialogue sink
      no_clients is_admitted

serve-CleanView_example :
    CleanView
      (view (serve settings surroundings 40 (new_conn settings surroundings peer) dialogue sink).0)
serve-CleanView_example = serve-CleanView settings surroundings peer 40 dialogue sink

-- 10.1.2.3 for 10.0.0.9, with ports 1 and 25 and a TLV of three bytes.
v2_header :
    parse_proxy_header_v2 (
      proxy_v2_signature
      ++ (33 ∷ 17 ∷ 0 ∷ 15 ∷ 10 ∷ 1 ∷ 2 ∷ 3 ∷ 10 ∷ 0 ∷ 0 ∷ 9 ∷ 0 ∷ 1 ∷ 0 ∷ 25 ∷ 4 ∷ 0 ∷ 0 ∷ []))
    ≡ ok (
        proxied (record { octets = 10 ∷ 1 ∷ 2 ∷ 3 ∷ [] }) (record { octets = 10 ∷ 0 ∷ 0 ∷ 9 ∷ [] }))
unfolding parse_proxy_header_v2
v2_header = refl

abbrev round : Conn × Sink → Conn × Sink
round r =
    write_pending settings surroundings (drop r.0.out_pos r.0.out)
      (calmed settings surroundings r.0) r.1

writes :
    (r : Conn × Sink) (e : Conn) (u : Sink)
    → (round r).0.closed ≡ false
    → Writes settings (round r).0 (round r).1 e u
    → Writes settings r.0 r.1 e u
writes r e u alive later = more surroundings r.0 (round r).0 e r.1 (round r).1 u refl alive later

abbrev first : Conn × Sink
first = (set_out (codes "o\n") session, sink)

abbrev last : Conn × Sink
last = round (round (round first))

-- Byte by byte.
three_rounds : Writes settings first.0 first.1 last.0 last.1
unfolding write_pending calmed crlf crlf_from after_cr after_write within_max new_counters write
    write_from
three_rounds = writes first last.0 last.1 refl (
    writes (round first) last.0 last.1 refl
      (writes (round (round first)) last.0 last.1 refl (rest last.0 last.1)))

all_out : length last.0.out ≤ last.0.out_pos
unfolding write_pending calmed crlf crlf_from after_cr after_write within_max new_counters write
    write_from
all_out = omega arith

reply-sent_example : last.1.sent ≡ sink.sent ++ crlf (codes "o\n")
reply-sent_example =
    reply-sent settings (codes "o\n") session last.0 sink last.1 three_rounds all_out

-- 192.0.2.7, listed as a spammer, behind the proxy 10.1.2.3.
abbrev spammer : Addr
spammer = record { octets = 192 ∷ 0 ∷ 2 ∷ 7 ∷ [] }

abbrev dotted : Bytes → Bytes
dotted [] = []
dotted (n ∷ []) = itoa n
dotted (n ∷ m ∷ ns) = itoa n ++ (b'.' ∷ dotted (m ∷ ns))

abbrev spam_list : Blacklist
spam_list = record (new_blacklist (codes "spam") (codes "no") list_storage) {
  prefixes = record { addr = spammer; bits = 32 } ∷ [];
}

abbrev proxies : Blacklist
proxies = record (new_blacklist [] [] list_storage) { prefixes = network ∷ [] }

abbrev proxy_settings : Config
proxy_settings = record settings { proxy_protocol = true; permitted_proxies = some proxies }

abbrev proxy_env : Env
proxy_env = record surroundings {
  parse_addr = λ s. if bytes_eq s (codes "192.0.2.7") then some spammer else none;
  addr_text = λ a. dotted a.octets;
  blacklists = spam_list ∷ [];
}

abbrev proxied_session : Conn
proxied_session = record session { in_buf = codes "PROXY TCP4 192.0.2.7 192.0.2.7 1 25" }

is_permitted : is_match proxied_session.src proxy_settings.permitted_proxies ≡ true
unfolding is_match new_blacklist covers unmap
is_permitted = refl

names : Names proxy_settings proxy_env proxied_session spammer spammer
unfolding match_cmd parse_proxy_header
names = by_line refl refl refl

apply_proxy_header-Judged_example :
    Judged proxy_settings proxy_env spammer spammer
      (apply_proxy_header proxy_settings proxy_env proxied_session)
unfolding itoa bytes_eq itoa_fuel
apply_proxy_header-Judged_example =
    apply_proxy_header-Judged proxy_settings proxy_env spammer spammer proxied_session is_permitted
      names refl refl refl
