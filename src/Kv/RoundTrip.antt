-- ===== src/Kv/RoundTrip.antt =====
-- What is stored in a key/value database is read back: keys and entries (adapters/db/kv/kv.go).
use mathlib.Core.List.{append-nil}
use greyd_v.Base.{
  ◌==◌, Bool-cases, ℕ, zero, suc, ◌+◌, ◌<◌, Bytes, [], ◌∷◌, ◌++◌, ◌≡◌, ◌≢◌, ◌⊎◌, inl, inr, refl, ap,
  ◌∙◌, some, arith, length, length-append, take, drop, take-append_length, All,
}
use greyd_v.Base.Int.{ℤ, InRange, to_word, of_word, of_word-to_word, of_word-InRange, to_word-lt}
use greyd_v.Result.{Result, ok}
use greyd_v.Core.{no_tuple, Key, Entry, EntryInRange}
use greyd_v.Kv.{put_be, get_be, cut, encode_key, decode_key, encode_entry, decode_entry}
use greyd_v.Kv.Words.{length-put_be, get_be-put_be}

-- A text with no NUL in it.
abbrev pub NulFree : Bytes → Type 0
NulFree = All (λ c. c ≢ 0)

-- The keys that a store can hold: a tuple whose first three fields have no NUL, or a type byte with
-- a text.
abbrev pub KeyIsValid : Key → Type 0
KeyIsValid k =
    ((k.typ ≡ 3) × (k.str ≡ []) × NulFree k.tuple.ip × NulFree k.tuple.helo × NulFree k.tuple.from)
    ⊎ ((k.typ ≢ 3) × (k.typ < 256) × (k.tuple ≡ no_tuple))

cut-append : (a r : Bytes) → NulFree a → cut 0 (a ++ (0 ∷ r)) ≡ some (a, r)
unfolding cut
cut-append [] r h = refl
cut-append (c ∷ cs) r h = ground (arith, cut-append cs r h.1, h.0)

-- A valid key - a tuple whose first three fields have no NUL, or another type byte with a text - is
-- read back from its encoding.
pub decode_key-encode_key : (k : Key) → KeyIsValid k → decode_key (encode_key k) ≡ ok k
unfolding encode_key decode_key
decode_key-encode_key k (inl (t, s, i, h, f)) =
    let u = k.tuple in
    ground (
      arith,
      cut-append u.ip (u.helo ++ (0 ∷ (u.from ++ (0 ∷ u.to)))) i,
      cut-append u.helo (u.from ++ (0 ∷ u.to)) h,
      cut-append u.from u.to f,
    )
decode_key-encode_key k (inr (t, small, u)) = ground arith

-- Different keys have different encodings.
pub encode_key-injective :
    (k j : Key) → KeyIsValid k → KeyIsValid j → encode_key k ≡ encode_key j → k ≡ j
encode_key-injective k j hk hj e =
    cc (decode_key-encode_key k hk, decode_key-encode_key j hj, ap decode_key e)

skip : (a r : Bytes) (m k : ℕ) → m ≡ length a + k → drop m (a ++ r) ≡ drop k r
skip [] r m k e = rw e (ap (λ n. drop n r) (omega arith))
skip (x ∷ a) r zero k e = absurd (omega arith)
skip (x ∷ a) r (suc m) k e = skip a r m k (omega arith)

take_word : (a r : Bytes) → length a ≡ 8 → take 8 (a ++ r) ≡ a
take_word a r h = rw h at (take-append_length a r)

take_all : (a : Bytes) → length a ≡ 8 → take 8 a ≡ a
take_all a h = rw append-nil at (take_word a [] h)

-- Five words of eight bytes each are read as the five fields.
decode_words :
    (a b c d e : Bytes)
    → length a ≡ 8
    → length b ≡ 8
    → length c ≡ 8
    → length d ≡ 8
    → length e ≡ 8
    → decode_entry (a ++ (b ++ (c ++ (d ++ e))))
      ≡ ok (record {
        first = of_word (get_be a);
        pass = of_word (get_be b);
        expire = of_word (get_be c);
        bcount = of_word (get_be d);
        pcount = of_word (get_be e);
      })
unfolding decode_entry
decode_words a b c d e ha hb hc hd he =
    let whole : length (a ++ (b ++ (c ++ (d ++ e)))) ≡ 40 = omega (arith, length-append {0}) in
    rw (
      whole,
      skip a (b ++ (c ++ (d ++ e))) 8 0 (omega arith),
      skip a (b ++ (c ++ (d ++ e))) 16 8 (omega arith),
      skip a (b ++ (c ++ (d ++ e))) 24 16 (omega arith),
      skip a (b ++ (c ++ (d ++ e))) 32 24 (omega arith),
      skip b (c ++ (d ++ e)) 8 0 (omega arith),
      skip b (c ++ (d ++ e)) 16 8 (omega arith),
      skip b (c ++ (d ++ e)) 24 16 (omega arith),
      skip c (d ++ e) 8 0 (omega arith),
      skip c (d ++ e) 16 8 (omega arith),
      skip d e 8 0 (omega arith),
      take_word a (b ++ (c ++ (d ++ e))) ha,
      take_word b (c ++ (d ++ e)) hb,
      take_word c (d ++ e) hc,
      take_word d e hd,
      take_all e he,
    )

read_word : (z : ℤ) → InRange z → of_word (get_be (put_be 8 (to_word z))) ≡ z
read_word z h = ap of_word (get_be-put_be 8 (to_word z) (to_word-lt z h)) ∙ of_word-to_word z h

-- Equal results have equal fields.
field : {a b : Entry} (f : Entry → ℤ) → ◌≡◌ {A = Result Entry} (ok a) (ok b) → f a ≡ f b
field f e = ap f (cc e)

-- An entry of 64-bit integers is read back from its encoding.
pub decode_entry-encode_entry : (d : Entry) → EntryInRange d → decode_entry (encode_entry d) ≡ ok d
unfolding encode_entry
decode_entry-encode_entry d h =
    decode_words (put_be 8 (to_word d.first)) (put_be 8 (to_word d.pass))
      (put_be 8 (to_word d.expire)) (put_be 8 (to_word d.bcount)) (put_be 8 (to_word d.pcount))
      (length-put_be 8 _) (length-put_be 8 _) (length-put_be 8 _) (length-put_be 8 _)
      (length-put_be 8 _)
    ∙ rw (
      read_word d.first h.first,
      read_word d.pass h.pass,
      read_word d.expire h.expire,
      read_word d.bcount h.bcount,
      read_word d.pcount h.pcount,
    )

-- What is read as an entry holds 64-bit integers.
pub decode_entry-InRange : (v : Bytes) (d : Entry) → decode_entry v ≡ ok d → EntryInRange d
unfolding decode_entry
decode_entry-InRange v d h = elim (Bool-cases (length v == 40)) [
  | inr short ↦ absurd (cc (rw short at h))
  | inl whole ↦
      let same = rw whole at h in
      record {
        first = rw (← field (λ e. e.first) same) (of_word-InRange _);
        pass = rw (← field (λ e. e.pass) same) (of_word-InRange _);
        expire = rw (← field (λ e. e.expire) same) (of_word-InRange _);
        bcount = rw (← field (λ e. e.bcount) same) (of_word-InRange _);
        pcount = rw (← field (λ e. e.pcount) same) (of_word-InRange _);
      }
]
