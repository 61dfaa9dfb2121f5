-- ===== src/Sync/Wire/Strings.antt =====
-- The fields of a greylist record are read back (internal/sync/wire.go).
use greyd_v.Base.{
  ℕ, zero, suc, ◌+◌, ◌<◌, ◌≤◌, ◌≡◌, refl, arith, Bytes, false, [], ◌∷◌, ◌++◌, length, length-append,
  drop,
}
use greyd_v.Kv.{put_be, get_be}
use greyd_v.Kv.Words.{get_be-put_be}
use greyd_v.Kv.RoundTrip.{NulFree}
use greyd_v.Sync.Wire.{
  be_at, addr_at, c_string, cstr, grey_head, grey_entry, entry, read_grey, read_tlv,
}
use greyd_v.Sync.Wire.Header.{take_front, drop_front}

pub cstr-c_string : (s : Bytes) → NulFree s → cstr (c_string s) ≡ s
unfolding cstr
cstr-c_string [] h = refl
cstr-c_string (c ∷ cs) h = ground (arith, cstr-c_string cs h.1, h.0)

module _ (tl now i j k l : ℕ) (f t h rest : Bytes) where
  abbrev ip : Bytes
  ip = i ∷ (j ∷ (k ∷ (l ∷ [])))

  -- A record with the strings of which it gives the lengths, and what follows it.
  abbrev pub record_bytes : Bytes
  record_bytes = grey_head tl ip now (length f) (length t) (length h) ++ (f ++ (t ++ (h ++ rest)))

  pub type_at : be_at 2 0 record_bytes ≡ 1
  unfolding grey_head put_be get_be
  type_at = refl

  pub tl_at : tl < 65536 → be_at 2 2 record_bytes ≡ tl
  unfolding grey_head put_be
  tl_at small = get_be-put_be 2 tl small

  from_len : length f < 65536 → be_at 2 12 record_bytes ≡ length f
  unfolding grey_head put_be
  from_len small = get_be-put_be 2 (length f) small

  to_len : length t < 65536 → be_at 2 14 record_bytes ≡ length t
  unfolding grey_head put_be
  to_len small = get_be-put_be 2 (length t) small

  helo_len : length h < 65536 → be_at 2 16 record_bytes ≡ length h
  unfolding grey_head put_be
  helo_len small = get_be-put_be 2 (length h) small

  strings_at : drop 18 record_bytes ≡ f ++ (t ++ (h ++ rest))
  unfolding grey_head put_be
  strings_at = refl

  ip_at : addr_at 8 record_bytes ≡ record { octets = ip }
  unfolding grey_head put_be
  ip_at = refl

  drop_both :
      (a b : Bytes) (n : ℕ) (r : Bytes) → n ≡ length a + length b → drop n (a ++ (b ++ r)) ≡ r
  drop_both [] b n r e = drop_front n b r (omega arith)
  drop_both (x ∷ a) b zero r e = absurd (omega arith)
  drop_both (x ∷ a) b (suc n) r e = drop_both a b n r (omega arith)

  pub read_tlv-record :
      length f + length t + length h + 18 ≤ tl
      → tl < 65536
      → read_tlv 1 tl record_bytes
        ≡ entry (record {
          typ = 1;
          ip = record { octets = ip };
          helo = cstr h;
          from = cstr f;
          to = cstr t;
          expire = 0;
          is_delete = false;
        })
  unfolding read_tlv read_grey grey_entry
  read_tlv-record fits small =
      rw
        (
          from_len (omega arith),
          to_len (omega arith),
          helo_len (omega arith),
          strings_at,
          ip_at,
          take_front (length f) f (t ++ (h ++ rest)) refl,
          drop_front (length f) f (t ++ (h ++ rest)) refl,
          take_front (length t) t (h ++ rest) refl,
          drop_both f t (length f + length t) (h ++ rest) refl,
          take_front (length h) h rest refl,
        )
        (ground arith)

  pub length-record_bytes : length record_bytes ≡ 18 + length f + length t + length h + length rest
  unfolding grey_head put_be
  length-record_bytes =
      omega (
        arith,
        length-append f (t ++ (h ++ rest)),
        length-append t (h ++ rest),
        length-append h rest,
      )
