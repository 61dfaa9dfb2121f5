-- ===== src/Memory/Laws.antt =====
-- The in-process store behaves as a map from keys to entries: what `Get` returns after `Put` and
-- `Del` (adapters/db/memory/memory.go).
use greyd_v.Base.{
  ◌⊎◌, Bytes, if◌then◌else◌, bytes_eq, bytes_eq_iff, bytes_eq_refl, Bool, true, false, ◌&&◌, Option,
  none, some, ◌≡◌, ◌≢◌, refl, sym, ap, ◌∙◌, arith, lookup, insert, remove, lookup-insert,
  lookup-remove,
}
use greyd_v.Result.{ok, >>=-eq-ok}
use greyd_v.Core.{Key, Entry, EntryInRange}
use greyd_v.Kv.{
  Bucket, entries, spamtraps, domains, bucket_for, encode_key, encode_entry, decode_entry,
}
use greyd_v.Kv.RoundTrip.{
  KeyIsValid, encode_key-injective, decode_entry-encode_entry, decode_entry-InRange,
}
use greyd_v.Memory.{Buckets, bucket, set_bucket, Tx, put, get, found, del}

same : Bucket → Bucket → Bool
same entries entries = true
same spamtraps spamtraps = true
same domains domains = true
same _ _ = false

same_refl : (b : Bucket) → same b b ≡ true
unfolding same
same_refl entries = refl
same_refl spamtraps = refl
same_refl domains = refl

lookup_put :
    (s : Buckets) (b c : Bucket) (k v j : Bytes)
    → lookup j (bucket (set_bucket s b (insert k v (bucket s b))) c)
      ≡ (if same b c && bytes_eq k j then some v else lookup j (bucket s c))
unfolding same
lookup_put s entries entries k v j = lookup-insert k j v s.of_entries
lookup_put s spamtraps spamtraps k v j = lookup-insert k j v s.of_spamtraps
lookup_put s domains domains k v j = lookup-insert k j v s.of_domains
lookup_put s _ _ k v j = refl

lookup_del :
    (s : Buckets) (b c : Bucket) (k j : Bytes)
    → lookup j (bucket (set_bucket s b (remove k (bucket s b))) c)
      ≡ (if same b c && bytes_eq k j then none else lookup j (bucket s c))
unfolding same
lookup_del s entries entries k j = lookup-remove k j s.of_entries
lookup_del s spamtraps spamtraps k j = lookup-remove k j s.of_spamtraps
lookup_del s domains domains k j = lookup-remove k j s.of_domains
lookup_del s _ _ k j = refl

-- The raw bytes behind a key.
abbrev pub raw : Key → Tx → Option Bytes
raw k t = lookup (encode_key k) (bucket t.stored (bucket_for k.typ))

pub get-raw : (k : Key) (t : Tx) → k.typ ≢ 5 → get k t ≡ found (raw k t)
unfolding get
get-raw k t h = ground arith

pub raw-put_self :
    (k : Key) (d : Entry) (t : Tx) {t' : Tx} → put k d t ≡ ok t' → raw k t' ≡ some (encode_entry d)
unfolding put
raw-put_self k d t h =
    let b = bucket_for k.typ in
    ground (
      arith,
      lookup_put t.stored b b (encode_key k) (encode_entry d) (encode_key k),
      same_refl b,
      bytes_eq_refl (encode_key k),
    )

pub raw-put_ne :
    (k j : Key) (d : Entry) (t : Tx) {t' : Tx}
    → encode_key k ≢ encode_key j
    → put k d t ≡ ok t'
    → raw j t' ≡ raw j t
unfolding put
raw-put_ne k j d t ne h = ground (
  arith,
  lookup_put t.stored (bucket_for k.typ) (bucket_for j.typ) (encode_key k) (encode_entry d)
      (encode_key j),
  bytes_eq_iff (encode_key k) (encode_key j),
)

pub raw-del_self : (k : Key) (t : Tx) {b : Bool} {t' : Tx} → del k t ≡ ok (b, t') → raw k t' ≡ none
unfolding del
raw-del_self k t h =
    let b = bucket_for k.typ in
    ground (
      arith,
      lookup_del t.stored b b (encode_key k) (encode_key k),
      same_refl b,
      bytes_eq_refl (encode_key k),
    )

pub raw-del_ne :
    (k j : Key) (t : Tx) {b : Bool} {t' : Tx}
    → encode_key k ≢ encode_key j
    → del k t ≡ ok (b, t')
    → raw j t' ≡ raw j t
unfolding del
raw-del_ne k j t ne h = ground (
  arith,
  lookup_del t.stored (bucket_for k.typ) (bucket_for j.typ) (encode_key k) (encode_key j),
  bytes_eq_iff (encode_key k) (encode_key j),
)

-- What is stored after a deletion was stored before it.
pub raw-del_back :
    (k j : Key) (t : Tx) {b : Bool} {t' : Tx} {v : Bytes}
    → del k t ≡ ok (b, t')
    → raw j t' ≡ some v
    → raw j t ≡ some v
unfolding del
raw-del_back k j t h there =
    ground (
      arith,
      lookup_del t.stored (bucket_for k.typ) (bucket_for j.typ) (encode_key k) (encode_key j),
    )

-- What is stored after a write was stored before it, or is what was written.
pub raw-put_back :
    (k j : Key) (d : Entry) (t : Tx) {t' : Tx} {v : Bytes}
    → put k d t ≡ ok t'
    → raw j t' ≡ some v
    → (raw j t ≡ some v) ⊎ (v ≡ encode_entry d)
unfolding put
raw-put_back k j d t h there = ground (
  arith,
  lookup_put t.stored (bucket_for k.typ) (bucket_for j.typ) (encode_key k) (encode_entry d)
      (encode_key j),
)

-- What `Get` returns was stored, and was decoded.
pub found-inversion :
    (o : Option Bytes) (d : Entry)
    → found o ≡ ok (some d)
    → (v : Bytes) × (o ≡ some v) × (decode_entry v ≡ ok d)
unfolding found
found-inversion none d h = absurd (cc h)
found-inversion (some v) d h =
    let (e, read, same) = >>=-eq-ok (decode_entry v) (λ e. ok (some e)) h in
    (v, refl, cc (read, same))

pub get-InRange :
    (k : Key) (t : Tx) (d : Entry) → k.typ ≢ 5 → get k t ≡ ok (some d) → EntryInRange d
get-InRange k t d n h =
    let (v, there, read) = found-inversion (raw k t) d (sym (get-raw k t n) ∙ h) in
    decode_entry-InRange v d read

pub found_stored : (d : Entry) → EntryInRange d → found (some (encode_entry d)) ≡ ok (some d)
unfolding found
found_stored d h = rw (decode_entry-encode_entry d h)

pub get-put_self :
    (k : Key) (d : Entry) (t : Tx) {t' : Tx}
    → k.typ ≢ 5
    → EntryInRange d
    → put k d t ≡ ok t'
    → get k t' ≡ ok (some d)
get-put_self k d t {t'} n r h = get-raw k t' n ∙ ap found (raw-put_self k d t h) ∙ found_stored d r

pub get-put_ne :
    (k j : Key) (d : Entry) (t : Tx) {t' : Tx}
    → KeyIsValid k
    → KeyIsValid j
    → j.typ ≢ 5
    → k ≢ j
    → put k d t ≡ ok t'
    → get j t' ≡ get j t
get-put_ne k j d t {t'} hk hj n ne h =
    get-raw j t' n
    ∙ ap found (raw-put_ne k j d t (λ e. ne (encode_key-injective k j hk hj e)) h)
    ∙ sym (get-raw j t n)

pub get-del_self :
    (k : Key) (t : Tx) {b : Bool} {t' : Tx} → k.typ ≢ 5 → del k t ≡ ok (b, t') → get k t' ≡ ok none
unfolding found
get-del_self k t {t' = t'} n h = get-raw k t' n ∙ ap found (raw-del_self k t h)

pub get-del_ne :
    (k j : Key) (t : Tx) {b : Bool} {t' : Tx}
    → KeyIsValid k
    → KeyIsValid j
    → j.typ ≢ 5
    → k ≢ j
    → del k t ≡ ok (b, t')
    → get j t' ≡ get j t
get-del_ne k j t {t' = t'} hk hj n ne h =
    get-raw j t' n
    ∙ ap found (raw-del_ne k j t (λ e. ne (encode_key-injective k j hk hj e)) h)
    ∙ sym (get-raw j t n)

-- A read does not depend on whether the transaction may write.
pub get_mode : (k : Key) (t : Tx) (b : Bool) → get k (record t { is_read_only = b }) ≡ get k t
unfolding get
get_mode k t b = refl
