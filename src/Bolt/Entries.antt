-- ===== src/Bolt/Entries.antt =====
-- The entries of the in-process store, by their encoded keys: what the scan of adapters/db/kv/kv.go does to
-- them and reads of them.
use greyd_v.Base.{
  Bytes, bytes_eq, bytes_eq_iff, if◌then◌else◌, Bool, false, none, some, ◌≡◌, refl, arith, lookup,
  ◌⊎◌, inl, inr, Option-cases, Bool-cases, lookup-insert, lookup-remove,
}
use greyd_v.Result.{ok, Result-cases}
use greyd_v.Core.{Key, Entry, ip_key}
use greyd_v.Kv.{bucket_for, entries, encode_key, encode_entry, decode_entry}
use greyd_v.Memory.{Tx, put, del, get, addr_state}
use greyd_v.Bolt.{state_of_raw}

-- The keys that the bucket of the entries holds: addresses and tuples.
abbrev pub InEntries : Key → Type 0
InEntries k = (k.typ ≡ 1) ⊎ (k.typ ≡ 3)

pub bucket_for_entries : (k : Key) → InEntries k → bucket_for k.typ ≡ entries
unfolding bucket_for
bucket_for_entries k (inl h) = rw h refl
bucket_for_entries k (inr h) = rw h refl

pub lookup-del_entries :
    (k : Key) (t : Tx) {b : Bool} {t' : Tx}
    → InEntries k
    → del k t ≡ ok (b, t')
    → (j : Bytes)
    → lookup j t'.stored.of_entries
      ≡ (if bytes_eq (encode_key k) j then none else lookup j t.stored.of_entries)
unfolding del
lookup-del_entries k t i h j = elim (Bool-cases t.is_read_only) [
  | inl r ↦ absurd (ground (arith, r, h))
  | inr w ↦ elim (Option-cases (lookup (encode_key k) t.stored.of_entries)) [
    | inl gone ↦ ground (arith, w, gone, h, bucket_for_entries k i, bytes_eq_iff (encode_key k) j)
    | inr (v, there) ↦ ground (
      arith,
      w,
      there,
      h,
      bucket_for_entries k i,
      lookup-remove (encode_key k) j t.stored.of_entries,
    )
  ]
]

pub lookup-put_entries :
    (k : Key) (d : Entry) (t : Tx) {t' : Tx}
    → InEntries k
    → put k d t ≡ ok t'
    → (j : Bytes)
    → lookup j t'.stored.of_entries
      ≡ (if bytes_eq (encode_key k) j then some (encode_entry d) else lookup j t.stored.of_entries)
unfolding put
lookup-put_entries k d t i h j = ground (
  arith,
  h,
  bucket_for_entries k i,
  lookup-insert (encode_key k) j (encode_entry d) t.stored.of_entries,
)

-- What AddrState reads.
pub addr_state-entries :
    (a : Bytes) (t : Tx)
    → addr_state a t ≡ state_of_raw (lookup (encode_key (ip_key a)) t.stored.of_entries) false
unfolding addr_state get
addr_state-entries a t = elim (Option-cases (lookup (encode_key (ip_key a)) t.stored.of_entries)) [
  | inl h ↦ rw h refl
  | inr (v, h) ↦
      rw h
        (elim (Result-cases (decode_entry v)) [ inl (d, e) ↦ rw e refl | inr (x, e) ↦ rw e refl ])
]

-- The encodings of addresses, and of tuples, which begin with other bytes.
pub same_address :
    (k : Key) (a : Bytes)
    → k.typ ≡ 1
    → bytes_eq (encode_key k) (encode_key (ip_key a)) ≡ bytes_eq k.str a
unfolding encode_key bytes_eq
same_address k a h = rw h refl

pub tuple_address :
    (k : Key) (a : Bytes) → k.typ ≡ 3 → bytes_eq (encode_key k) (encode_key (ip_key a)) ≡ false
unfolding encode_key bytes_eq
tuple_address k a h = rw h refl
