-- ===== src/Memory.antt =====
-- adapters/db/memory/memory.go: the in-process store. A database is three maps from encoded keys to
-- encoded entries; a map is an association list, whose order no result depends on, but for which of
-- several malformed domain keys is met first. One transaction runs at a time (a mutex in the
-- source), on a copy of the data that is kept only when the transaction returns no error.
pub mod Laws
pub mod Transactions
unfoldable pub use greyd_v.Base.{lookup, insert, remove}
use greyd_v.Base.{
  ℕ, zero, suc, ◌/◌, ◌%◌, Bytes, ◌==◌, if◌then◌else◌, bytes_eq, ltb, Bool, true, false, not, List,
  [], ◌∷◌, ◌++◌, Option, none, some, map, ◌&&◌, ◌||◌, Table,
}
use greyd_v.Base.Int
use greyd_v.Result.{Result, ok, err, read_only, cancelled, ◌>>=◌}
use greyd_v.Core
use greyd_v.Core.{Key, key_domain_part, Entry, no_entry, pcount_domain}
use greyd_v.Kv.{
  Bucket, entries, spamtraps, domains, bucket_for, encode_key, decode_key, encode_entry,
  decode_entry, domain_matches,
}

abbrev pub Assoc : Type 0
Assoc = Table Bytes

pub record Buckets : Type 0 where
  pub of_entries : Assoc
  pub of_spamtraps : Assoc
  pub of_domains : Assoc

abbrev pub bucket : Buckets → Bucket → Assoc
bucket b entries = b.of_entries
bucket b spamtraps = b.of_spamtraps
bucket b domains = b.of_domains

abbrev pub set_bucket : Buckets → Bucket → Assoc → Buckets
set_bucket b entries m = record b { of_entries = m }
set_bucket b spamtraps m = record b { of_spamtraps = m }
set_bucket b domains m = record b { of_domains = m }

abbrev pub new_database : Buckets
new_database = record { of_entries = []; of_spamtraps = []; of_domains = [] }

-- A transaction: the bucket set that it works on, and whether it may write.
pub record Tx : Type 0 where
  pub stored : Buckets
  pub is_read_only : Bool

unfoldable pub put : Key → Entry → Tx → Result Tx
unfolding bucket_for
put k d t =
    if t.is_read_only
    then err read_only
    else let b = bucket_for k.typ in
      ok (record t {
        stored = set_bucket t.stored b (insert (encode_key k) (encode_entry d) (bucket t.stored b));
      })

-- The loop of `Get` over the permitted domains.
unfoldable pub get_domain_part : Bytes → Assoc → Result (Option Entry)
get_domain_part addr [] = ok none
get_domain_part addr ((raw, v) ∷ rest) =
    let later = get_domain_part addr rest in
    do
      dk ← decode_key raw
      if domain_matches dk.str addr
          then ok (some (record no_entry { pcount = pcount_domain }))
          else later

pub found : Option Bytes → Result (Option Entry)
found none = ok none
found (some v) = do d ← decode_entry v; ok (some d)

-- `none` is the result `Data{}, false, nil`.
unfoldable pub get : Key → Tx → Result (Option Entry)
unfolding get_domain_part found bucket_for
get k t =
    if k.typ == key_domain_part
    then get_domain_part k.str t.stored.of_domains
    else found (lookup (encode_key k) (bucket t.stored (bucket_for k.typ)))

del_found : Tx → Bucket → Bytes → Option Bytes → Result (Bool × Tx)
del_found t b ek none = ok (false, t)
del_found t b ek (some _) =
    ok (true, record t { stored = set_bucket t.stored b (remove ek (bucket t.stored b)) })

unfoldable pub del : Key → Tx → Result (Bool × Tx)
unfolding del_found bucket_for
del k t =
    if t.is_read_only
    then err read_only
    else let b = bucket_for k.typ in
      let ek = encode_key k in del_found t b ek (lookup ek (bucket t.stored b))

-- core.AddrState: 0 not found, 1 greytrapped, 2 whitelisted.
state_of : Option Entry → ℕ
state_of none = 0
state_of (some d) = if Int.eq_ℤ d.pcount Core.pcount_trapped then 1 else 2

unfoldable pub addr_state : Bytes → Tx → Result ℕ
unfolding state_of
addr_state ip t = do d ← get (Core.ip_key ip) t; ok (state_of d)

-- sort.Strings: byte-wise lexicographic order.
unfoldable pub bytes_leb : Bytes → Bytes → Bool
bytes_leb [] _ = true
bytes_leb (x ∷ xs) [] = false
bytes_leb (x ∷ xs) (y ∷ ys) = ltb x y || (x == y && bytes_leb xs ys)

unfoldable pub insert_sorted : Bytes → List Bytes → List Bytes
insert_sorted k [] = k ∷ []
insert_sorted k (j ∷ js) = if bytes_leb k j then k ∷ (j ∷ js) else j ∷ insert_sorted k js

unfoldable pub sort_strings : List Bytes → List Bytes
unfolding insert_sorted bytes_leb
sort_strings [] = []
sort_strings (k ∷ ks) = insert_sorted k (sort_strings ks)

abbrev keys_of : Assoc → List Bytes
keys_of = map (λ p. p.0)

-- The snapshot of `Iter`: 1 selects the entries, 2 the spamtraps, 4 the permitted domains.
unfoldable pub iter : ℕ → Tx → List Bytes
unfolding sort_strings
iter types t =
    (if types % 2 == 0 then [] else sort_strings (keys_of t.stored.of_entries))
    ++ ((if types / 2 % 2 == 0 then [] else sort_strings (keys_of t.stored.of_spamtraps))
        ++ (if types / 4 % 2 == 0 then [] else sort_strings (keys_of t.stored.of_domains)))

-- `iterator.Next`: the next entry of the snapshot that is still there, and the rest of the snapshot.
unfoldable pub next : List Bytes → Tx → Result (Option (Key × Entry × List Bytes))
next [] t = ok none
next (raw ∷ rest) t =
    let later = next rest t in
    do
      k ← decode_key raw
      elim (lookup raw (bucket t.stored (bucket_for k.typ))) [
        | none ↦ later
        | some v ↦ (do d ← decode_entry v; ok (some (k, d, rest)))
      ]

-- The handle onto a database.
pub record Store : Type 0 where
  pub db : Buckets
  pub is_read_only : Bool

-- `Store.Open`: mode 1 is OpenRO.
unfoldable pub open_store : ℕ → Store → Store
open_store mode s = record s { is_read_only = mode == 1 }

-- `Store.View`: the context may be cancelled already.
unfoldable pub view : {A : Type 0} → Bool → (Tx → Result A) → Store → Result A
view is_cancelled fn s =
    if is_cancelled then err cancelled else fn (record { stored = s.db; is_read_only = true })

unfoldable pub kept : {A : Type 0} → Store → Result (A × Tx) → Result A × Store
kept s (ok (a, t)) = (ok a, record s { db = t.stored })
kept s (err e) = (err e, s)

unfoldable pub update : {A : Type 0} → Bool → (Tx → Result (A × Tx)) → Store → Result A × Store
unfolding kept
update is_cancelled fn s =
    if is_cancelled
    then (err cancelled, s)
    else if s.is_read_only
    then (err read_only, s)
    else kept s (fn (record { stored = s.db; is_read_only = false }))
