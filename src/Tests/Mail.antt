-- ===== src/Tests/Mail.antt =====
-- A mail server's retry, from its first message to the scan (internal/grey, adapters/db/kv,
-- adapters/db/memory).
use greyd_v.Base.{
  ◌==◌, if◌then◌else◌, bytes_eq, Bytes, true, false, [], ◌∷◌, Option, none, some, ◌≡◌, inl, inr,
  refl, arith, codes, any,
}
use greyd_v.Base.Int.{pos, add64, ltb_ℤ, leb_ℤ, to_word, of_word}
use greyd_v.Result.{ok, ◌>>=◌}
use greyd_v.Core.{Tuple, Entry, ip_key, tuple_key, mail_key, pcount_trapped}
use greyd_v.Ip.{Addr}
use greyd_v.Kv.{encode_key, encode_entry, decode_entry, put_be, get_be}
use greyd_v.Kv.RoundTrip.{KeyIsValid, NulFree}
use greyd_v.Memory.{Store, Tx, new_database, get, del, view, lookup}
use greyd_v.Memory.Transactions.{core_get}
use greyd_v.Grey.{Engine, Time, process_grey, checked, go_on, trap_check, trap_check_with}
use greyd_v.Grey.Effects.{
  Wrote, live, begin, processed, process_grey-unseen, process_grey-retry, process_grey-trapped,
}
use greyd_v.Grey.Blocked.{seen_once, retry_whitelists, retry_too_soon}
use greyd_v.Scan.{initial, visit, add_white}

abbrev engine : Engine
engine = record {
  pass_time = pos 1500;
  grey_expiry = pos 14400;
  white_expiry = pos 3110400;
  trap_expiry = pos 86400;
  low_prio_mx = [];
  db_permitted_domains = false;
  spf_enable = false;
  trap_on_softfail = false;
  whitelist_on_pass = false;
  has_syncer = false;
  startup = record { unix = pos 0; nano = 0 };
  domains = [];
}

abbrev mail : Tuple
mail = record { ip = codes "10.0.0.1"; helo = codes "mx"; from = codes "a@b"; to = codes "c@d" }

abbrev local_ip : Bytes
local_ip = codes "10.0.0.9"

nul_free : (cs : Bytes) → any (λ c. c == 0) cs ≡ false → NulFree cs
nul_free [] h = tt
nul_free (c ∷ cs) h = ground (arith, nul_free cs)

mail-KeyIsValid : KeyIsValid (tuple_key mail)
mail-KeyIsValid =
    inl (refl, refl, nul_free mail.ip refl, nul_free mail.helo refl, nul_free mail.from refl)

abbrev empty : Store
empty = record { db = new_database; is_read_only = false }

abbrev first_seen : Entry
first_seen = seen_once 1000 14400

-- The store with one grey tuple, seen at 1000.
abbrev seen : Store
seen = record {
  db = record {
    of_entries = (encode_key (tuple_key mail), encode_entry first_seen) ∷ [];
    of_spamtraps = [];
    of_domains = [];
  };
  is_read_only = false;
}

abbrev local_addr : Bytes → Option Addr
local_addr s = some (record { octets = 10 ∷ 0 ∷ 0 ∷ 1 ∷ [] })

known : core_get false (tuple_key mail) seen ≡ ok (some first_seen)
unfolding core_get view get encode_key encode_entry lookup bytes_eq decode_entry put_be of_word
    get_be to_word
known = refl

no_address : core_get false (ip_key mail.ip) seen ≡ ok none
unfolding core_get view get encode_key encode_entry lookup bytes_eq
no_address = refl

no_trap : view false (trap_check engine mail.to) seen ≡ ok 1
unfolding view trap_check get trap_check_with lookup
no_trap = refl

policy_clean : checked engine mail none ≡ go_on
unfolding checked
policy_clean = refl

-- At 3000 the retry comes after the pass time; at 4000 the scan runs.
abbrev after_retry : Store
after_retry =
    (process_grey engine none live mail true local_ip (record { unix = pos 3000; nano = 0 })
      seen).store

retry_whitelists_example :
    (d : Entry) × (t : Tx) × (core_get false (tuple_key mail) after_retry ≡ ok (some d))
    × (visit local_addr (pos 4000) (pos 3110400) (tuple_key mail) d initial (begin after_retry)
        ≡ ok (add_white local_addr mail.ip initial, t))
    × (get (ip_key mail.ip) t ≡ ok (some (record d { expire = add64 (pos 4000) (pos 3110400) })))
    × (get (tuple_key mail) t ≡ ok none)
retry_whitelists_example =
    retry_whitelists engine none mail true local_ip 0 1000 3000 4000 1500 14400 3110400 seen
      local_addr initial refl mail-KeyIsValid (omega arith) (omega arith) refl known no_trap
      (inr policy_clean) (omega arith) (omega arith) (omega arith) (omega arith) no_address

-- A retry at 2000 is too early.
abbrev too_early : Store
too_early =
    (process_grey engine none live mail true local_ip (record { unix = pos 2000; nano = 0 })
      seen).store

retry_too_soon_example :
    (d : Entry) × (core_get false (tuple_key mail) too_early ≡ ok (some d))
    × (visit local_addr (pos 4000) (pos 3110400) (tuple_key mail) d initial (begin too_early) ≡ (
        if leb_ℤ d.expire (pos 4000)
        then (do r ← del (tuple_key mail) (begin too_early); ok (initial, r.1))
        else ok (initial, begin too_early)))
retry_too_soon_example =
    retry_too_soon engine none mail true local_ip 0 1000 2000 4000 1500 14400 3110400 seen
      local_addr initial refl mail-KeyIsValid (omega arith) (omega arith) refl known no_trap
      (inr policy_clean) (omega arith) (omega arith)

abbrev start_time : Time
start_time = record { unix = pos 1000; nano = 0 }

nothing_known : core_get false (tuple_key mail) empty ≡ ok none
unfolding core_get view get lookup
nothing_known = refl

no_trap_yet : view false (trap_check engine mail.to) empty ≡ ok 1
unfolding view trap_check get trap_check_with lookup
no_trap_yet = refl

process_grey-unseen_example :
    Wrote empty
      (processed engine none mail true local_ip start_time empty)
      (tuple_key mail)
      (record {
        first = pos 1000;
        pass = add64 (pos 1000) (pos 14400);
        expire = add64 (pos 1000) (pos 14400);
        bcount = pos 1;
        pcount = pos 0;
      })
process_grey-unseen_example =
    process_grey-unseen engine none mail true local_ip start_time empty refl mail-KeyIsValid
      (omega arith) no_trap_yet (inr policy_clean) (λ e. absurd (cc e)) nothing_known

process_grey-retry_example :
    Wrote seen
      (processed engine none mail true local_ip (record { unix = pos 3000; nano = 0 }) seen)
      (tuple_key mail)
      (record {
        first = pos 1000;
        pass = if ltb_ℤ (add64 (pos 1000) (pos 1500)) (pos 3000) then pos 3000 else pos 15400;
        expire = pos 15400;
        bcount = add64 (pos 1) (pos 1);
        pcount = pos 0;
      })
process_grey-retry_example =
    process_grey-retry engine none mail true local_ip (record { unix = pos 3000; nano = 0 }) seen
      first_seen refl mail-KeyIsValid (omega arith) no_trap (inr policy_clean) known

-- A database with the recipient as a spamtrap.
abbrev trapping : Store
trapping = record {
  db = record {
    of_entries = [];
    of_spamtraps = (encode_key (mail_key mail.to), encode_entry first_seen) ∷ [];
    of_domains = [];
  };
  is_read_only = false;
}

is_trap : view false (trap_check engine mail.to) trapping ≡ ok 0
unfolding view trap_check get trap_check_with lookup encode_key decode_entry encode_entry put_be
is_trap = refl

no_entry_there : core_get false (ip_key mail.ip) trapping ≡ ok none
unfolding core_get view get lookup
no_entry_there = refl

process_grey-trapped_example :
    (d : Entry) × Wrote trapping
      (processed engine none mail true local_ip start_time trapping)
      (ip_key mail.ip)
      d
    × (d.pcount ≡ pcount_trapped)
process_grey-trapped_example =
    process_grey-trapped engine none mail true local_ip start_time trapping none refl (omega arith)
      is_trap no_entry_there
