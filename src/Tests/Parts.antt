-- ===== src/Tests/Parts.antt =====
-- Connection counters, the SMTP machine, the trie, the list scanner, ranges and addresses on concrete
-- inputs (internal/smtp, internal/blacklist, internal/spamdlist, internal/ip, internal/core).
use greyd_v.Base.{
  ◌==◌, ◌&&◌, suc, ◌≤◌, ◌||◌, Bytes, true, false, [], ◌∷◌, none, some, ◌≡◌, refl, arith, codes,
  length, All,
}
use greyd_v.Base.Int.{pos}
use greyd_v.Core.{normalize_email}
use greyd_v.Core.Email.{IsNormal, normalize_email-IsNormal}
use greyd_v.Ip.{bit_len, unmap, Addr, u32, range_to_cidrs_fuel, range_to_cidrs}
use greyd_v.Ip.Decompose.{range_to_cidrs-total}
use greyd_v.Blacklist.Radix.{agree, Prefix, new_trie, insert, contains, mask_octets}
use greyd_v.Blacklist.Cover.{contains-insert}
use greyd_v.Spamdlist.Scanner.{new_scanner, next}
use greyd_v.Spamdlist.Tokens.{Fits, next-Fits}
use greyd_v.Smtp.Counters.{Counters, new_counters, reserve, is_full, is_source_full}
use greyd_v.Smtp.Counters.Live.{Client, Counts, blacks, sources}
use greyd_v.Smtp.Counters.Limits.{reserve-le}
use greyd_v.Smtp.Counters.Kept.{admitted, Step-Counts}
use greyd_v.Smtp.{match_cmd, Conn, Config, data_in, rcpt_out}
use greyd_v.Smtp.Greylisted.{Deferred, after_rcpt, next_state-Deferred}
use greyd_v.Smtp.Next.{next_state}
use greyd_v.Smtp.Proxy.{Env}
use greyd_v.Smtp.Progress.{Pending, next_state-Pending}

normalize_email-IsNormal_example :
    (length (normalize_email (codes "<Ab@C.d>")) ≤ 1023)
    × All IsNormal (normalize_email (codes "<Ab@C.d>"))
    × (normalize_email (normalize_email (codes "<Ab@C.d>")) ≡ normalize_email (codes "<Ab@C.d>"))
normalize_email-IsNormal_example = normalize_email-IsNormal (codes "<Ab@C.d>")

-- From 10.0.0.0 to 10.0.0.5.
range_to_cidrs-total_example :
    range_to_cidrs_fuel (suc u32) 167772160 167772165 ≡ some (range_to_cidrs 167772160 167772165)
range_to_cidrs-total_example = range_to_cidrs-total 167772160 167772165 (omega arith)

abbrev net : Bytes
net = 10 ∷ 1 ∷ 0 ∷ 0 ∷ []

abbrev host : Bytes
host = 10 ∷ 1 ∷ 2 ∷ 3 ∷ []

-- 10.1.0.0/16.
abbrev pub network : Prefix
network = record { addr = record { octets = net }; bits = 16 }

abbrev host_addr : Addr
host_addr = record { octets = host }

contains-insert_example : contains host_addr (insert network new_trie).1 ≡ (
    contains host_addr new_trie
    || (bit_len (unmap host_addr) == 32
        && agree 16 0 (mask_octets 16 net) (unmap host_addr).octets))
contains-insert_example = contains-insert network host_addr new_trie refl

next-Fits_example : Fits (next (new_scanner (codes "  192.168.0.0/16 # x"))).0
next-Fits_example = next-Fits (new_scanner (codes "  192.168.0.0/16 # x"))

abbrev pub peer : Addr
peer = record { octets = host }

abbrev client : Client
client = record { src = peer; is_black = false }

abbrev pub after_first : Counters
after_first = (reserve peer (new_counters 800 700)).1

pub no_clients : Counts (new_counters 800 700) []
unfolding Counts new_counters blacks sources
no_clients = (refl, refl, λ a. refl)

pub is_admitted : reserve peer (new_counters 800 700) ≡ (true, after_first)
unfolding reserve new_counters is_full is_source_full
is_admitted = refl

Step-Counts_example : Counts after_first (client ∷ [])
Step-Counts_example =
    Step-Counts (new_counters 800 700) after_first [] (client ∷ []) no_clients
      (admitted (new_counters 800 700) after_first [] peer is_admitted)

abbrev pub settings : Config
settings = record {
  hostname = codes "mx.example";
  banner = codes "spamd";
  error_code = codes "450";
  greylist = true;
  proxy_protocol = false;
  grey_out = true;
  stutter = 1;
  grey_stutter = 10;
  line_limit = 8192;
  permitted_proxies = none;
}

abbrev pub surroundings : Env
surroundings = record {
  time_text = codes "now";
  orig_dst = codes "10.0.0.9";
  grey_write_ok = true;
  parse_addr = λ s. none;
  addr_text = λ a. [];
  blacklists = [];
  counters = new_counters 800 700;
  elapsed = 0;
}

-- A greylisted client about to send its message.
abbrev pub session : Conn
session = record {
  state = data_in;
  last_state = rcpt_out;
  src = peer;
  reserved_src = peer;
  src_addr = codes "10.0.0.1";
  dst_addr = codes "10.0.0.9";
  helo = codes "mx";
  mail = codes "a@b";
  rcpt = codes "c@d";
  lists = [];
  list_summary = [];
  stutter = 1;
  input = [];
  in_buf = codes "DATA";
  proxy_v2 = none;
  out = [];
  out_pos = 0;
  seen_cr = false;
  bad_cmd = 0;
  data_body = false;
  data_lines = 0;
  pending_read = false;
  pending_write = false;
  closed = false;
  black = false;
  effects = [];
}

next_state-Pending_example : Pending (next_state settings surroundings session)
next_state-Pending_example = next_state-Pending settings surroundings session

sends_data : match_cmd session.in_buf (codes "DATA") ≡ true
unfolding match_cmd
sends_data = refl

next_state-Deferred_example : Deferred session (next_state settings surroundings session)
next_state-Deferred_example =
    next_state-Deferred settings surroundings session refl refl sends_data refl after_rcpt

none_open : (new_counters 800 700).clients ≡ pos 0
unfolding new_counters
none_open = refl

limited : 1 ≤ (new_counters 800 700).max_cons
unfolding new_counters
limited = omega arith

reserve-le_example : (after_first.clients ≡ pos (suc 0)) × (suc 0 ≤ (new_counters 800 700).max_cons)
reserve-le_example =
    reserve-le peer (new_counters 800 700) after_first 0 none_open limited is_admitted
