-- ===== src/Sync/Wire/RoundTrip.antt =====
-- What one host encodes the other decodes (internal/sync/wire.go).
use mathlib.Core.List.{append_assoc}
use greyd_v.Base.{
  ℕ, zero, suc, ◌+◌, ◌-◌, ◌^◌, ◌<◌, ◌≤◌, ◌==◌, ◌≡◌, ◌∙◌, ap, sym, refl, arith, Bytes, false, ◌||◌,
  [], ◌∷◌, ◌++◌, length, length-append, length-replicate, replicate, drop,
}
use greyd_v.Result.{ok}
use greyd_v.Ip.{Addr, unmap}
use greyd_v.Kv.{put_be, get_be}
use greyd_v.Kv.Words.{get_be-put_be}
use greyd_v.Kv.RoundTrip.{NulFree}
use greyd_v.Sync.Wire.{
  SyncEntry, entry, be_at, addr_at, c_string, end_tlv, sg_len, align, grey_head, grey_tlv, addr_tlv,
  addr_entry, hdr_len, encode_grey, encode_addr, decode_packet, counted, read_tlv, read_tlvs,
}
use greyd_v.Sync.Wire.Header.{decode_packet-sign, drop_front}
use greyd_v.Sync.Wire.Strings.{
  cstr-c_string, record_bytes, type_at, tl_at, read_tlv-record, length-record_bytes,
}

read_tlvs-end : (fuel : ℕ) → 1 ≤ fuel → read_tlvs fuel end_tlv ≡ ok []
unfolding read_tlvs read_tlv get_be
read_tlvs-end zero h = absurd (omega arith)
read_tlvs-end (suc fuel) h = refl

-- A record at the front that is an entry, with the end after it.
last_record :
    (fuel tl typ : ℕ) (b : ℕ) (bs : Bytes) (e : SyncEntry)
    → be_at 2 2 (b ∷ bs) ≡ tl
    → be_at 2 0 (b ∷ bs) ≡ typ
    → 4 ≤ tl
    → tl ≤ length (b ∷ bs)
    → read_tlv typ tl (b ∷ bs) ≡ entry e
    → drop tl (b ∷ bs) ≡ end_tlv
    → 1 ≤ fuel
    → read_tlvs (suc fuel) (b ∷ bs) ≡ ok (e ∷ [])
unfolding read_tlvs
last_record fuel tl typ b bs e at_tl at_typ four fits this after more =
    rw (at_tl, at_typ, this, after, read_tlvs-end fuel more) (ground arith)

module _ (hmac : Bytes → Bytes → Bytes) (key : Bytes)
    (sized : (m : Bytes) → length (hmac key m) ≡ 20) (i j k l : ℕ) where
  abbrev host : Addr
  host = record { octets = i ∷ (j ∷ (k ∷ (l ∷ []))) }

  module _ (helo sender rcpt : Bytes) (now : ℕ) where
    abbrev strings_len : ℕ
    strings_len = sg_len helo sender rcpt

    abbrev tlv_len : ℕ
    tlv_len = strings_len + (align strings_len - strings_len)

    abbrev after_strings : Bytes
    after_strings = replicate (align strings_len - strings_len) 0 ++ end_tlv

    abbrev whole : Bytes
    whole =
        record_bytes tlv_len now i j k l (c_string sender) (c_string rcpt) (c_string helo)
          after_strings

    grey_tlv-whole : grey_tlv host helo sender rcpt now ++ end_tlv ≡ whole
    unfolding grey_tlv unmap
    grey_tlv-whole = simp append_assoc

    length-grey_tlv : length (grey_tlv host helo sender rcpt now) ≡ tlv_len
    length-grey_tlv =
        let both = length-append (grey_tlv host helo sender rcpt now) end_tlv in
        let same = ap length grey_tlv-whole in
        let parts =
          length-record_bytes tlv_len now i j k l (c_string sender) (c_string rcpt) (c_string helo)
            after_strings in
        let rest = length-append (replicate (align strings_len - strings_len) 0) end_tlv in
        let zeros = length-replicate {A = ℕ} (align strings_len - strings_len) 0 in
        omega (arith, both, same, parts, rest, zeros)

    read_whole :
        (fuel : ℕ)
        → tlv_len < 65536
        → NulFree helo
        → NulFree sender
        → NulFree rcpt
        → 1 ≤ fuel
        → read_tlvs (suc fuel) whole
          ≡ ok (
              record {
                typ = 1;
                ip = host;
                helo = helo;
                from = sender;
                to = rcpt;
                expire = 0;
                is_delete = false;
              }
              ∷ [])
    unfolding grey_head put_be
    read_whole fuel small nh nf nt more =
        let read =
          read_tlv-record tlv_len now i j k l (c_string sender) (c_string rcpt) (c_string helo)
            after_strings (omega arith) small in
        let strings =
          rw (cstr-c_string helo nh, cstr-c_string sender nf, cstr-c_string rcpt nt) at read in
        let after : drop tlv_len whole ≡ end_tlv =
          ap (drop tlv_len) (sym grey_tlv-whole)
          ∙ drop_front tlv_len (grey_tlv host helo sender rcpt now) end_tlv length-grey_tlv in
        let long =
          length-record_bytes tlv_len now i j k l (c_string sender) (c_string rcpt) (c_string helo)
            after_strings in
        let rest = length-append (replicate (align strings_len - strings_len) 0) end_tlv in
        let zeros = length-replicate {A = ℕ} (align strings_len - strings_len) 0 in
        last_record fuel tlv_len 1 _ _ _
          (tl_at tlv_len now i j k l (c_string sender) (c_string rcpt) (c_string helo) after_strings
            small)
          (type_at tlv_len now i j k l (c_string sender) (c_string rcpt) (c_string helo)
            after_strings)
          (omega arith) (omega (arith, long, rest, zeros)) strings after more

    -- A greylist packet, signed and opened with one key: the other host reads the counter, the
    -- address and the three texts. The MAC has 20 bytes, the address is an IPv4 one, the texts have
    -- no NUL, the record fits a packet, the counter is a uint32.
    pub decode_packet-encode_grey :
        (counter : ℕ)
        → counter < 2 ^ 32
        → tlv_len + 36 < 65536
        → NulFree helo
        → NulFree sender
        → NulFree rcpt
        → decode_packet hmac key (encode_grey hmac key counter host helo sender rcpt now)
          ≡ ok (record {
            counter = counter;
            entries =
                record {
                  typ = 1;
                  ip = host;
                  helo = helo;
                  from = sender;
                  to = rcpt;
                  expire = 0;
                  is_delete = false;
                }
                ∷ [];
          })
    unfolding encode_grey counted
    decode_packet-encode_grey counter c small nh nf nt =
        let body = grey_tlv host helo sender rcpt now ++ end_tlv in
        let long : length body ≡ tlv_len + 4 =
          omega
            (arith, length-append (grey_tlv host helo sender rcpt now) end_tlv, length-grey_tlv) in
        decode_packet-sign hmac key sized counter body c (omega arith)
        ∙ ap (counted counter) (
            ap (read_tlvs (suc (hdr_len + length body))) grey_tlv-whole
            ∙ read_whole (hdr_len + length body) (omega arith) nh nf nt (omega arith))

  module _ (typ now expire : ℕ) where
    abbrev addr_bytes : Bytes
    addr_bytes = addr_tlv typ host now expire ++ end_tlv

    length-addr_bytes : length addr_bytes ≡ 20
    unfolding addr_tlv put_be unmap
    length-addr_bytes = refl

    expire_at : expire < 2 ^ 32 → be_at 4 8 addr_bytes ≡ expire
    unfolding addr_tlv put_be
    expire_at small = get_be-put_be 4 expire small

    host_at : addr_at 12 addr_bytes ≡ host
    unfolding addr_tlv put_be unmap
    host_at = refl

    is_entry : (p : Bytes) → 1 < typ → typ < 6 → read_tlv typ 16 p ≡ entry (addr_entry typ p)
    unfolding read_tlv
    is_entry p low high = ground arith

    abbrev decoded : SyncEntry
    decoded = record {
      typ = typ;
      ip = host;
      helo = [];
      from = [];
      to = [];
      expire = expire;
      is_delete = typ == 4 || typ == 5;
    }

    addr_entry-decoded : expire < 2 ^ 32 → addr_entry typ addr_bytes ≡ decoded
    unfolding addr_entry
    addr_entry-decoded small = rw (expire_at small, host_at) refl

    read_addr :
        (fuel : ℕ)
        → 1 < typ
        → typ < 6
        → expire < 2 ^ 32
        → 1 ≤ fuel
        → read_tlvs (suc fuel) addr_bytes ≡ ok (decoded ∷ [])
    unfolding addr_tlv put_be get_be unmap
    read_addr fuel low high small more =
        last_record fuel 16 typ _ _ decoded refl (omega arith) (omega arith) (omega arith)
          (is_entry addr_bytes low high ∙ ap entry (addr_entry-decoded small)) refl more

    -- A packet with a white or trapped address, or the deletion of one, signed and opened with one
    -- key: the other host reads the counter, the type, the address and the expiry. The MAC has 20
    -- bytes, the address is an IPv4 one, the type is 2 to 5, the counter and the expiry are uint32.
    pub decode_packet-encode_addr :
        (counter : ℕ)
        → counter < 2 ^ 32
        → 1 < typ
        → typ < 6
        → expire < 2 ^ 32
        → decode_packet hmac key (encode_addr hmac key counter typ host now expire)
          ≡ ok (record { counter = counter; entries = decoded ∷ [] })
    unfolding encode_addr counted
    decode_packet-encode_addr counter c low high small =
        let twenty : length addr_bytes ≡ 20 = length-addr_bytes in
        decode_packet-sign hmac key sized counter addr_bytes c (omega arith)
        ∙ ap (counted counter)
            (read_addr (hdr_len + length addr_bytes) low high small (omega arith))
