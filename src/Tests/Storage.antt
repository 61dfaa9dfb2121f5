-- ===== src/Tests/Storage.antt =====
-- The in-process store and the encodings on concrete keys and entries (adapters/db).
use greyd_v.Grey.Rounds.{Rounds, told, after_scan, scan_once}
use greyd_v.Grey.Rounds.Expired.{scan_once-Fresh}
use greyd_v.Memory.{kept, view}
use greyd_v.Base.{
  ℕ, bytes_eq, Bytes, true, false, [], ◌∷◌, Option, none, some, ◌≡◌, ◌≢◌, inr, refl, arith, codes,
  ap, get_or,
}
use greyd_v.Base.Int.{pos, leb_ℤ, add64, to_word, of_word}
use greyd_v.Result.{Result, read_only, ok, err, ◌>>=◌}
use greyd_v.Core.{Key, Entry, EntryInRange, ScanResult, ip_key}
use greyd_v.Ip.{Addr, check_addr, unmap}
use greyd_v.Kv.{
  encode_key, encode_entry, decode_entry, decode_key, bucket_for, entries, put_be, get_be,
}
use greyd_v.Kv.RoundTrip.{KeyIsValid, decode_key-encode_key, decode_entry-encode_entry}
use greyd_v.Memory.{Store, Tx, new_database, put, del, get, update, iter, lookup}
use greyd_v.Memory.Transactions.{core_get, core_put, core_del}
use greyd_v.Memory.Transactions.Atomic.{core_get-core_put, core_get-core_del}
use greyd_v.Scan.{scan, visit, walk, add_white}
use greyd_v.Scan.Live.{Fresh, scan-Fresh}

abbrev empty : Store
empty = record { db = new_database; is_read_only = false }

abbrev one : Key
one = ip_key (codes "10.0.0.1")

abbrev two : Key
two = ip_key (codes "10.0.0.2")

abbrev white : Entry
white = record { first = pos 10; pass = pos 20; expire = pos 500; bcount = pos 1; pcount = pos 2 }

white-InRange : EntryInRange white
white-InRange = record {
  first = omega arith;
  pass = omega arith;
  expire = omega arith;
  bcount = omega arith;
  pcount = omega arith;
}

address-KeyIsValid : (s : Bytes) → KeyIsValid (ip_key s)
address-KeyIsValid s = inr ((λ e. absurd (omega arith)), omega arith, refl)

differ : ◌≢◌ {A = ℕ} 49 50
differ e = absurd (omega arith)

one-two : one ≢ two
one-two e = differ (ap (λ k. get_or k.str 7 0) e)

put_ok : (core_put false one white empty).0 ≡ ok tt
unfolding core_put update put
put_ok = refl

core_get-core_put_example :
    (core_get false one (core_put false one white empty).1 ≡ ok (some white))
    × (core_get false two (core_put false one white empty).1 ≡ core_get false two empty)
core_get-core_put_example =
    core_get-core_put one two white empty (λ e. absurd (omega arith)) (λ e. absurd (omega arith))
      (address-KeyIsValid (codes "10.0.0.1")) (address-KeyIsValid (codes "10.0.0.2")) white-InRange
      put_ok one-two

-- A store with one white entry.
abbrev holding : Store
holding = record {
  db = record {
    of_entries = (encode_key one, encode_entry white) ∷ [];
    of_spamtraps = [];
    of_domains = [];
  };
  is_read_only = false;
}

del_ok : (core_del false one holding).0 ≡ ok true
unfolding core_del update del lookup bytes_eq encode_key
del_ok = refl

core_get-core_del_example :
    (core_get false one (core_del false one holding).1 ≡ ok none)
    × (core_get false two (core_del false one holding).1 ≡ core_get false two holding)
core_get-core_del_example =
    core_get-core_del one two holding true (λ e. absurd (omega arith)) (λ e. absurd (omega arith))
      (address-KeyIsValid (codes "10.0.0.1")) (address-KeyIsValid (codes "10.0.0.2")) del_ok one-two

-- A transaction that deletes the entry and then fails.
abbrev spoiled : Tx → Result (Unit {0} × Tx)
spoiled t = do r ← del one t; err read_only

decode_key-encode_key_example : decode_key (encode_key one) ≡ ok one
decode_key-encode_key_example = decode_key-encode_key one (address-KeyIsValid (codes "10.0.0.1"))

decode_entry-encode_entry_example : decode_entry (encode_entry white) ≡ ok white
decode_entry-encode_entry_example = decode_entry-encode_entry white white-InRange

abbrev local_addr : Bytes → Option Addr
local_addr s = some (record { octets = 10 ∷ 0 ∷ 0 ∷ 1 ∷ [] })

abbrev before_scan : Tx
before_scan = record { stored = holding.db; is_read_only = false }

abbrev scanned : ScanResult
scanned = record { whitelist = codes "10.0.0.1" ∷ []; whitelist_v6 = []; traplist = [] }

scan_run : scan local_addr (pos 100) (pos 1000) before_scan ≡ ok (scanned, before_scan)
unfolding scan walk iter decode_key encode_key lookup bucket_for bytes_eq decode_entry encode_entry
    put_be visit of_word get_be to_word add_white check_addr unmap
scan_run = refl

still_there : get one before_scan ≡ ok (some white)
unfolding get lookup bytes_eq encode_key decode_entry encode_entry put_be of_word get_be to_word
still_there = refl

future : leb_ℤ (add64 (pos 100) (pos 1000)) (pos 100) ≡ false
unfolding add64
future = refl

is_entry : bucket_for one.typ ≡ entries
unfolding bucket_for
is_entry = refl

scan-Fresh_example : Fresh (pos 100) white
scan-Fresh_example =
    scan-Fresh local_addr (pos 100) (pos 1000) future before_scan before_scan scanned scan_run one
      white (address-KeyIsValid (codes "10.0.0.1")) is_entry still_there

abbrev rounds : Rounds
rounds = record {
  white_expiry = pos 1000;
  has_trap_out = true;
  has_fw_out = true;
  ipv6 = false;
  traplist_name = codes "traps";
  traplist_message = codes "no";
  whitelist_name = codes "white";
  whitelist_name_v6 = codes "white6";
}

one_round :
    scan_once local_addr rounds 100 false false holding
    ≡ (ok (told local_addr rounds 100 false false scanned holding), holding)
unfolding scan_once after_scan update kept scan walk iter decode_key encode_key lookup bucket_for
    bytes_eq decode_entry encode_entry put_be visit of_word get_be to_word add_white check_addr
    unmap
one_round = refl

is_read : core_get false one holding ≡ ok (some white)
unfolding core_get view get lookup bytes_eq encode_key decode_entry encode_entry put_be of_word
    get_be to_word
is_read = refl

scan_once-Fresh_example : Fresh (pos 100) white
scan_once-Fresh_example =
    scan_once-Fresh local_addr rounds 100 false future holding holding
      (told local_addr rounds 100 false false scanned holding) one_round one white
      (address-KeyIsValid (codes "10.0.0.1")) is_entry is_read
