-- ===== src/Kv.antt =====
-- adapters/db/kv/kv.go: the encodings of keys and entries.
pub mod Words
pub mod RoundTrip
use greyd_v.Base.{
  ℕ, zero, suc, ◌+◌, ◌*◌, ◌/◌, ◌%◌, ◌^◌, Bytes, ◌==◌, if◌then◌else◌, bytes_eq, leb, ltb, Bool, true,
  false, List, [], ◌∷◌, ◌++◌, Option, none, some, map, length, take, drop, ◌-◌, not,
}
use greyd_v.Base.Int.{to_word, of_word}
use greyd_v.Result.{Result, ok, err, empty_key, malformed_key, malformed_data}
use greyd_v.Core.{
  Tuple, no_tuple, KeyType, Key, key_mail, key_tuple, key_domain, key_domain_part, Entry, to_lower,
}

pub data Bucket : Type 0 where
  entries spamtraps domains : Bucket

unfoldable pub bucket_for : KeyType → Bucket
bucket_for t =
    if t == key_mail
    then spamtraps
    else if t == key_domain
    then domains
    else if t == key_domain_part
    then domains
    else entries

-- binary.BigEndian: the n low bytes of a word, the highest first, and back.
unfoldable pub put_be : ℕ → ℕ → Bytes
put_be zero w = []
put_be (suc n) w = w / 256 ^ n % 256 ∷ put_be n w

unfoldable pub get_be_from : ℕ → Bytes → ℕ
get_be_from acc [] = acc
get_be_from acc (b ∷ bs) = get_be_from (acc * 256 + b) bs

unfoldable pub get_be : Bytes → ℕ
unfolding get_be_from
get_be = get_be_from 0

-- The text before the first separator and the text behind it, or `none` without one.
unfoldable pub cons_first : ℕ → Option (Bytes × Bytes) → Option (Bytes × Bytes)
cons_first c none = none
cons_first c (some (a, r)) = some (c ∷ a, r)

unfoldable pub cut : ℕ → Bytes → Option (Bytes × Bytes)
unfolding cons_first
cut sep [] = none
cut sep (c ∷ cs) = if c == sep then some ([], cs) else cons_first c (cut sep cs)

-- strings.SplitN with n + 1 parts at most.
unfoldable pub split_n : ℕ → ℕ → Bytes → List Bytes
split_n zero sep s = s ∷ []
split_n (suc n) sep s = elim (cut sep s) [ none ↦ s ∷ [] | some (a, r) ↦ a ∷ split_n n sep r ]

unfoldable pub encode_key : Key → Bytes
encode_key k =
    let t = k.tuple in
    (k.typ % 256)
    ∷ (if k.typ == key_tuple then t.ip ++ (0 ∷ (t.helo ++ (0 ∷ (t.from ++ (0 ∷ t.to))))) else k.str)

tuple_of_parts : List Bytes → Result Tuple
tuple_of_parts (a ∷ b ∷ c ∷ d ∷ []) = ok (record { ip = a; helo = b; from = c; to = d })
tuple_of_parts _ = err malformed_key

tuple_key_of : KeyType → Result Tuple → Result Key
tuple_key_of t (ok u) = ok (record { typ = t; str = []; tuple = u })
tuple_key_of t (err e) = err e

unfoldable pub decode_key : Bytes → Result Key
unfolding split_n cut tuple_of_parts tuple_key_of
decode_key [] = err empty_key
decode_key (t ∷ rest) =
    if t == key_tuple
    then tuple_key_of t (tuple_of_parts (split_n 3 0 rest))
    else ok (record { typ = t; str = rest; tuple = no_tuple })

unfoldable pub encode_entry : Entry → Bytes
encode_entry d =
    put_be 8 (to_word d.first)
    ++ (put_be 8 (to_word d.pass)
        ++ (put_be 8 (to_word d.expire)
            ++ (put_be 8 (to_word d.bcount) ++ put_be 8 (to_word d.pcount))))

unfoldable pub decode_entry : Bytes → Result Entry
decode_entry b =
    if length b == 40
    then ok (record {
      first = of_word (get_be (take 8 b));
      pass = of_word (get_be (take 8 (drop 8 b)));
      expire = of_word (get_be (take 8 (drop 16 b)));
      bcount = of_word (get_be (take 8 (drop 24 b)));
      pcount = of_word (get_be (take 8 (drop 32 b)));
    })
    else err malformed_data

-- strings.HasSuffix
unfoldable pub has_suffix : Bytes → Bytes → Bool
unfolding bytes_eq
has_suffix s suffix =
    if ltb (length s) (length suffix)
    then false
    else bytes_eq (drop (length s - length suffix) s) suffix

unfoldable pub domain_matches : Bytes → Bytes → Bool
unfolding has_suffix to_lower
domain_matches domain addr = has_suffix (map to_lower addr) (map to_lower domain)
