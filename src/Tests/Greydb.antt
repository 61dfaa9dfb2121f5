-- ===== src/Tests/Greydb.antt =====
-- The command line and greydb on concrete words and keys (internal/cli, internal/app/greydb).
use greyd_v.Base.{
  ℕ, Bytes, ◌+◌, bytes_eq, Bool, true, false, List, [], ◌∷◌, Option, none, some, ◌≡◌, refl, codes,
  length, All, if◌then◌else◌,
}
use greyd_v.Base.Int.{pos, negsuc}
use greyd_v.Result.{ok, err, missing_argument}
use greyd_v.Core.{Key, Entry, domain_key}
use greyd_v.Ip.{Addr}
use greyd_v.Memory.{Tx, new_database}
use greyd_v.Cli.{parse}
use greyd_v.Cli.Render.{
  Group, IsGroup, bundle, attached, separate, render, all_options, parse-render,
}
use greyd_v.Stats.{Counts}
use greyd_v.Greydb.Options.{type_white, type_domain}
use greyd_v.Greydb.Applied.{Applied}
use greyd_v.Greydb.Totals.{writable, read_only_store, db_update-counted}
use greyd_v.Greydb.{Updated, db_update, db_summary}

-- -D, -f with a file in the same word, -Y with a host in the next one.
abbrev line : List Group
line = bundle b'D' [] ∷ attached (b'a' ∷ []) b'f' b'x' [] ∷ separate [] b'Y' (codes "-h") ∷ []

known : All (IsGroup (codes "adtTDsf:Y:")) line
unfolding greyd_v.Cli.takes_arg
known = (((refl, refl), tt), ((((refl, refl), tt), (refl, refl)), ((tt, (refl, refl)), tt)))

parse-render_example :
    parse (codes "adtTDsf:Y:") (render line (codes "-k" ∷ []))
    ≡ ok (all_options line, codes "-k" ∷ [])
parse-render_example = parse-render (codes "adtTDsf:Y:") line (codes "-k" ∷ []) known

-- An option of a tool that lacks its argument.
missing : parse (codes "f:") (codes "-f" ∷ []) ≡ err (missing_argument b'f')
unfolding parse
missing = refl

-- A parser of addresses that knows one.
abbrev parse_addr : Bytes → Option Addr
parse_addr s =
    if bytes_eq s (codes "192.0.2.7") then some (record { octets = 192 ∷ 0 ∷ 2 ∷ 7 ∷ [] }) else none

abbrev two_keys : List Bytes
two_keys = codes "192.0.2.7" ∷ codes "nowhere" ∷ []

db_update-counted_example :
    ((db_update parse_addr false type_white
          (pos 100)
          (pos 50)
          (pos 60)
          true
          two_keys
          (writable new_database)).failed
        + length
            (db_update parse_addr false type_white
              (pos 100)
              (pos 50)
              (pos 60)
              true
              two_keys
              (writable new_database)).told
      ≡ 2)
    × (db_update parse_addr false type_white
          (pos 100)
          (pos 50)
          (pos 60)
          true
          two_keys
          (read_only_store new_database)
        ≡ record { failed = 2; told = []; store = read_only_store new_database })
db_update-counted_example =
    db_update-counted parse_addr false type_white (pos 100) (pos 50) (pos 60) two_keys new_database
      tt

-- The white entry is listed, and the other key failed.
updated :
    (db_update parse_addr false type_white
      (pos 100)
      (pos 50)
      (pos 60)
      true
      two_keys
      (writable new_database)).failed
    ≡ 1
unfolding db_update greyd_v.Ip.check_addr bytes_eq greyd_v.Ip.unmap greyd_v.Memory.get
    greyd_v.Base.lookup greyd_v.Memory.put
updated = refl

abbrev begun : Tx
begun = record { stored = new_database; is_read_only = false }

-- A permitted domain that is added to an empty database is counted as a spamtrap; added again, as a
-- domain.
abbrev one_domain : Updated
one_domain =
    db_update parse_addr false type_domain (pos 100) (pos 50) (pos 60) false (codes "x.org" ∷ [])
      (writable new_database)

domain_as_spamtrap :
    db_summary one_domain.store
    ≡ ok (record { grey = 0; white = 0; trapped = 0; spamtrap = 1; domain = 0 })
unfolding greyd_v.Stats.summarize greyd_v.Memory.view greyd_v.Scan.walk greyd_v.Memory.iter
    db_update greyd_v.Memory.get greyd_v.Base.lookup greyd_v.Memory.put greyd_v.Base.insert
    greyd_v.Kv.decode_key greyd_v.Kv.encode_key bytes_eq greyd_v.Core.normalize_email
    greyd_v.Core.to_lower greyd_v.Kv.decode_entry greyd_v.Kv.encode_entry greyd_v.Kv.put_be
    greyd_v.Base.Int.of_word greyd_v.Kv.get_be greyd_v.Base.Int.to_word
domain_as_spamtrap = refl

domain_again :
    db_summary
      (db_update parse_addr false type_domain
        (pos 200)
        (pos 50)
        (pos 60)
        false
        (codes "x.org" ∷ [])
        one_domain.store).store
    ≡ ok (record { grey = 0; white = 0; trapped = 0; spamtrap = 0; domain = 1 })
unfolding greyd_v.Stats.summarize greyd_v.Memory.view greyd_v.Scan.walk greyd_v.Memory.iter
    db_update greyd_v.Memory.get greyd_v.Base.lookup greyd_v.Memory.put greyd_v.Base.insert bytes_eq
    greyd_v.Kv.encode_key greyd_v.Core.normalize_email greyd_v.Core.to_lower greyd_v.Kv.decode_entry
    greyd_v.Kv.encode_entry greyd_v.Kv.put_be greyd_v.Kv.decode_key greyd_v.Base.Int.of_word
    greyd_v.Kv.get_be greyd_v.Base.Int.to_word
domain_again = refl
