-- ===== src/Sync/Wire/Authentic.antt =====
-- `Decode` of internal/sync/wire.go takes no packet without its MAC.
use greyd_v.Base.{
  Bytes, bytes_eq, bytes_eq_iff, not, ◌||◌, ltb, if_rule, ◌==◌, ◌≡◌, take, drop, arith,
}
use greyd_v.Base.{length, ◌≤◌, get_or}
use greyd_v.Result.{ok}
use greyd_v.Sync.Wire.{Packet, hdr_len, be_at, cleared, decode_cut, decode_packet}

module _ (hmac : Bytes → Bytes → Bytes) (key : Bytes) (p : Packet) where
  decode_cut-authentic :
      (pkt : Bytes) → decode_cut hmac key pkt ≡ ok p → take 20 (drop 8 pkt) ≡ hmac key (cleared pkt)
  unfolding decode_cut
  decode_cut-authentic pkt =
      if_rule (λ r. r ≡ ok p → take 20 (drop 8 pkt) ≡ hmac key (cleared pkt))
        (not (bytes_eq (take 20 (drop 8 pkt)) (hmac key (cleared pkt)))) (λ other h. absurd (cc h))
        λ same h. (bytes_eq_iff (take 20 (drop 8 pkt)) (hmac key (cleared pkt))).0 (ground arith)

  -- A packet that is accepted is at least as long as its length says, which is 32 at least, and
  -- carries at bytes 8 to 27 the MAC under the key of that many of its bytes, with the MAC's bytes
  -- zero.
  pub decode_packet-authentic :
      (pkt : Bytes)
      → decode_packet hmac key pkt ≡ ok p
      → (be_at 2 2 pkt ≤ length pkt)
        × (32 ≤ be_at 2 2 pkt)
        × (take 20 (drop 8 (take (be_at 2 2 pkt) pkt))
            ≡ hmac key (cleared (take (be_at 2 2 pkt) pkt)))
  unfolding decode_packet
  decode_packet-authentic pkt =
      if_rule (λ r. r ≡ ok p → Accepted pkt)
        (ltb (length pkt) hdr_len || (not (get_or pkt 0 0 == 2) || not (get_or pkt 1 0 == 2)))
        (λ short h. absurd (cc h))
        λ long.
          if_rule (λ r. r ≡ ok p → Accepted pkt)
            (ltb (length pkt) (be_at 2 2 pkt) || ltb (be_at 2 2 pkt) hdr_len)
            (λ bad h. absurd (cc h))
            λ fits h.
              (ground arith, ground arith, decode_cut-authentic (take (be_at 2 2 pkt) pkt) h)
    where
      Accepted : Bytes → Type 0
      Accepted q =
          (be_at 2 2 q ≤ length q)
          × (32 ≤ be_at 2 2 q)
          × (take 20 (drop 8 (take (be_at 2 2 q) q)) ≡ hmac key (cleared (take (be_at 2 2 q) q)))
