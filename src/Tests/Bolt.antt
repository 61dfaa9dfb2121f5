-- ===== src/Tests/Bolt.antt =====
-- The scan of the bbolt store on concrete entries (adapters/db/bolt).
use mathlib.Core.Path.{subst}
use greyd_v.Base.{
  Bytes, bytes_eq, true, false, [], ◌∷◌, some, ◌≡◌, refl, sym, ◌∙◌, arith, codes, All, lookup,
  insert, remove, lookup-insert, lookup-remove, inl, inr, Table, none,
}
use greyd_v.Base.Int.{pos}
use greyd_v.Result.{ok}
use greyd_v.Core.{Key, no_entry, ip_key, tuple_key}
use greyd_v.Kv.{encode_key, decode_key, encode_entry}
use greyd_v.Memory.{Tx, new_database, iter}
use greyd_v.Scan
use greyd_v.Bolt
use greyd_v.Bolt.{Bucket}
use greyd_v.Bolt.Walks.{Visits, Visited}
use greyd_v.Bolt.Equivalent.{Stored, SameScan, scan-SameScan}

-- A bucket as a table in the order of its keys.
abbrev table_bucket : Bucket (Table Bytes)
table_bucket = record {
  get = lookup;
  put = insert;
  delete = remove;
  cursor = λ b. b;
  get-put = λ k j v b. lookup-insert k j v b;
  get-delete = λ k j b. lookup-remove k j b;
}

-- An address whose entry has expired, and a tuple of the same address that has passed.
abbrev one_address : Key
one_address = ip_key (codes "1")

abbrev passed : Key
passed = tuple_key (record { ip = codes "1"; helo = codes "h"; from = codes "f"; to = codes "t" })

abbrev expired_entry : Bytes
expired_entry = encode_entry (record no_entry { expire = pos 5 })

abbrev passed_entry : Bytes
passed_entry = encode_entry (record no_entry { pass = pos 10; expire = pos 90 })

abbrev held : Table Bytes
held = (encode_key one_address, expired_entry) ∷ (encode_key passed, passed_entry) ∷ []

abbrev begun : Tx
begun = record { stored = record new_database { of_entries = held }; is_read_only = false }

ok-injective : {k j : Key} → ok k ≡ ok j → k ≡ j
ok-injective h = cc h

-- What holds of the key that the bytes decode to.
of_decoded :
    (P : Key → Type 0) (raw : Bytes) (k : Key)
    → decode_key raw ≡ ok k
    → P k
    → (j : Key) → decode_key raw ≡ ok j
    → P j
of_decoded P raw k h p j e = subst P (ok-injective (sym h ∙ e)) p

visits : Visits held
unfolding Visits decode_key encode_key bytes_eq
visits = (
  of_decoded (Visited (encode_key one_address) ((encode_key passed, passed_entry) ∷ []))
      (encode_key one_address) one_address refl (refl, inl refl, λ e. absurd (omega (arith, e))),
  (refl, tt),
  (
    of_decoded (Visited (encode_key passed) []) (encode_key passed) passed refl
        (refl, inr refl, λ e. tt),
    tt,
    tt,
  ),
)

in_order : iter 1 begun ≡ encode_key one_address ∷ encode_key passed ∷ []
unfolding iter encode_key
in_order = refl

holds : All (λ p. lookup p.0 held ≡ some p.1) held
unfolding lookup bytes_eq encode_key
holds = (refl, (refl, tt))

same_entries : Stored table_bucket held begun
same_entries = record { same = λ k. refl; order = in_order; visits = visits; holds = holds }

scan-SameScan_example :
    SameScan table_bucket
      (Scan.scan (λ s. none) (pos 20) (pos 50) begun)
      (Bolt.scan table_bucket (λ s. none) (pos 20) (pos 50) true held)
scan-SameScan_example =
    scan-SameScan table_bucket held (λ s. none) (pos 20) (pos 50) begun refl same_entries
