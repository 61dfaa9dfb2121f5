-- ===== src/Sync/Wire/Header.antt =====
-- A signed packet is accepted and its records are read (internal/sync/wire.go).
use greyd_v.Base.{
  ℕ, zero, suc, ◌+◌, ◌^◌, ◌<◌, ◌≤◌, ◌≡◌, ap, refl, arith, Bytes, bytes_eq_refl, [], ◌∷◌, ◌++◌,
  length, length-append, take, drop, take-append_length, drop-append_length, get_or,
}
use greyd_v.Kv.{put_be}
use greyd_v.Kv.Words.{get_be-put_be}
use greyd_v.Sync.Wire.{
  hmac_len, hdr_len, header, unsigned, zero_mac, pad4, be_at, cleared, sign, decode_cut,
  decode_packet, counted, read_tlvs,
}

pub take-length : (n : ℕ) (b : Bytes) → length b ≤ n → take n b ≡ b
take-length zero [] h = refl
take-length zero (x ∷ b) h = absurd (omega arith)
take-length (suc n) [] h = refl
take-length (suc n) (x ∷ b) h = ap (◌∷◌ x) (take-length n b (omega arith))

pub take_front : (n : ℕ) (a r : Bytes) → length a ≡ n → take n (a ++ r) ≡ a
take_front n a r h = rw (← h) (take-append_length a r)

pub drop_front : (n : ℕ) (a r : Bytes) → length a ≡ n → drop n (a ++ r) ≡ r
drop_front n a r h = rw (← h) (drop-append_length a r)

module _ (hmac : Bytes → Bytes → Bytes) (key : Bytes)
    (sized : (m : Bytes) → length (hmac key m) ≡ 20) (counter : ℕ) (body : Bytes) where
  abbrev mac : Bytes
  mac = hmac key (unsigned counter body)

  abbrev signed : Bytes
  signed = header counter (hdr_len + length body) ++ (mac ++ (pad4 ++ body))

  sign-unsigned : sign hmac key (unsigned counter body) ≡ signed
  unfolding sign unsigned header put_be
  sign-unsigned =
      let short : length mac ≤ 20 = omega (arith, sized (unsigned counter body)) in
      ap (λ m. header counter (hdr_len + length body) ++ (m ++ (pad4 ++ body)))
        (take-length 20 mac short)

  length-signed : length signed ≡ hdr_len + length body
  unfolding header put_be
  length-signed = omega (arith, length-append mac (pad4 ++ body), sized (unsigned counter body))

  cleared-signed : cleared signed ≡ unsigned counter body
  unfolding unsigned header put_be
  cleared-signed =
      ap (λ r. header counter (hdr_len + length body) ++ (zero_mac ++ r))
        (drop_front 20 mac (pad4 ++ body) (sized (unsigned counter body)))

  mac_at : take hmac_len (drop 8 signed) ≡ mac
  unfolding header put_be
  mac_at = take_front 20 mac (pad4 ++ body) (sized (unsigned counter body))

  length_at : hdr_len + length body < 65536 → be_at 2 2 signed ≡ hdr_len + length body
  unfolding header put_be
  length_at small = get_be-put_be 2 (hdr_len + length body) small

  counter_at : counter < 2 ^ 32 → be_at 4 4 signed ≡ counter
  unfolding header put_be
  counter_at small = get_be-put_be 4 counter small

  body_at : drop hdr_len (unsigned counter body) ≡ body
  unfolding unsigned header put_be
  body_at = refl

  starts : (get_or signed 0 0 ≡ 2) × (get_or signed 1 0 ≡ 2)
  unfolding header
  starts = (refl, refl)

  decode_cut-signed :
      counter < 2 ^ 32
      → decode_cut hmac key signed ≡ counted counter (read_tlvs (suc (hdr_len + length body)) body)
  unfolding decode_cut
  decode_cut-signed small =
      rw (mac_at, cleared-signed, bytes_eq_refl mac, counter_at small, length-signed, body_at) refl

  -- A packet that `sign` signed is read as the records in its body.
  pub decode_packet-sign :
      counter < 2 ^ 32
      → hdr_len + length body < 65536
      → decode_packet hmac key (sign hmac key (unsigned counter body))
        ≡ counted counter (read_tlvs (suc (hdr_len + length body)) body)
  unfolding decode_packet
  decode_packet-sign small fits =
      let whole : take (hdr_len + length body) signed ≡ signed =
        take-length (hdr_len + length body) signed (omega (arith, length-signed)) in
      rw
        (
          sign-unsigned,
          length-signed,
          length_at fits,
          starts.0,
          starts.1,
          whole,
          decode_cut-signed small,
        )
        (ground arith)
