-- ===== src/Sync/Wire.antt =====
-- internal/sync/wire.go: the packets of the synchronisation protocol. HMAC-SHA1 is a parameter of
-- the functions that sign and check a packet.
pub mod Header
pub mod Strings
pub mod RoundTrip
pub mod Authentic
use greyd_v.Base.{
  ℕ, zero, suc, ◌+◌, ◌-◌, ◌*◌, ◌/◌, ◌==◌, Bytes, bytes_eq, if◌then◌else◌, Bool, true, false, not,
  ◌&&◌, ◌||◌, ltb, List, [], ◌∷◌, ◌++◌, length, take, drop, replicate, get_or,
}
use greyd_v.Result.{Result, ok, err, truncated_packet}
use greyd_v.Ip.{Addr, is4, unmap}
use greyd_v.Kv.{put_be, get_be}

-- HMACLen, hdrLen, tlvHdrLen, greyHdrLen, addrLen, endLen; the version and AF_INET are both 2.
abbrev pub hmac_len : ℕ
hmac_len = 20

abbrev pub hdr_len : ℕ
hdr_len = 32

abbrev pub grey_hdr_len : ℕ
grey_hdr_len = 18

abbrev pub addr_len : ℕ
addr_len = 16

abbrev pub type_grey : ℕ
type_grey = 1

-- Type{White,Trapped,DelWhite,DelTrapped} are 2 to 5, TypeEnd is 0.
abbrev pub is_addr_type : ℕ → Bool
is_addr_type t = ltb 1 t && ltb t 6

-- `align`
abbrev pub align : ℕ → ℕ
align n = (n + 15) / 16 * 16

abbrev pub ip4 : Addr → Bytes
ip4 a = if is4 (unmap a) then (unmap a).octets else replicate 4 0

abbrev pub zero_mac : Bytes
zero_mac = 0 ∷ 0 ∷ 0 ∷ 0 ∷ 0 ∷ 0 ∷ 0 ∷ 0 ∷ 0 ∷ 0 ∷ 0 ∷ 0 ∷ 0 ∷ 0 ∷ 0 ∷ 0 ∷ 0 ∷ 0 ∷ 0 ∷ 0 ∷ []

-- The bytes of `putHeader`, of which those from the eighth on stay 0, and of `putEnd`.
unfoldable pub header : ℕ → ℕ → Bytes
unfolding put_be
header counter total = 2 ∷ (2 ∷ (put_be 2 total ++ put_be 4 counter))

abbrev pub pad4 : Bytes
pad4 = 0 ∷ 0 ∷ 0 ∷ 0 ∷ []

abbrev pub end_tlv : Bytes
end_tlv = 0 ∷ 0 ∷ 0 ∷ 4 ∷ []

-- The unsigned packet around its records.
unfoldable pub unsigned : ℕ → Bytes → Bytes
unfolding header
unsigned counter body = header counter (hdr_len + length body) ++ (zero_mac ++ (pad4 ++ body))

-- A Go string with its NUL.
abbrev pub c_string : Bytes → Bytes
c_string s = s ++ (0 ∷ [])

-- The record of a greylist tuple up to its strings, with its length.
unfoldable pub grey_head : ℕ → Bytes → ℕ → ℕ → ℕ → ℕ → Bytes
unfolding put_be
grey_head tl ip now from_len to_len helo_len =
    put_be 2 type_grey
    ++ (put_be 2 tl
        ++ (put_be 4 now ++ (ip ++ (put_be 2 from_len ++ (put_be 2 to_len ++ put_be 2 helo_len)))))

abbrev pub grey_strings : Bytes → Bytes → Bytes → Bytes
grey_strings helo sender rcpt = c_string sender ++ (c_string rcpt ++ c_string helo)

abbrev pub sg_len : Bytes → Bytes → Bytes → ℕ
sg_len helo sender rcpt =
    grey_hdr_len + length (c_string sender) + length (c_string rcpt) + length (c_string helo)

unfoldable pub grey_tlv : Addr → Bytes → Bytes → Bytes → ℕ → Bytes
unfolding grey_head
grey_tlv ip helo sender rcpt now =
    let n = sg_len helo sender rcpt in
    let padding = align n - n in
    grey_head (n + padding) (ip4 ip) now (length (c_string sender)) (length (c_string rcpt))
      (length (c_string helo))
    ++ (grey_strings helo sender rcpt ++ replicate padding 0)

unfoldable pub addr_tlv : ℕ → Addr → ℕ → ℕ → Bytes
unfolding put_be
addr_tlv typ ip now expire =
    put_be 2 typ ++ (put_be 2 addr_len ++ (put_be 4 now ++ (put_be 4 expire ++ ip4 ip)))

-- The decoded records.
pub record SyncEntry : Type 0 where
  pub typ : ℕ
  pub ip : Addr
  pub helo : Bytes
  pub from : Bytes
  pub to : Bytes
  pub expire : ℕ
  pub is_delete : Bool

pub record Packet : Type 0 where
  pub counter : ℕ
  pub entries : List SyncEntry

-- `cstr`
unfoldable pub cstr : Bytes → Bytes
cstr [] = []
cstr (c ∷ cs) = let rest = cstr cs in if c == 0 then [] else c ∷ rest

-- The big-endian number of n bytes at an offset.
abbrev pub be_at : ℕ → ℕ → Bytes → ℕ
be_at n off p = get_be (take n (drop off p))

abbrev pub addr_at : ℕ → Bytes → Addr
addr_at off p = record { octets = take 4 (drop off p) }

unfoldable pub grey_entry : Bytes → SyncEntry
unfolding cstr
grey_entry p =
    let f = be_at 2 12 p in
    let t = be_at 2 14 p in
    let h = be_at 2 16 p in
    let s = drop grey_hdr_len p in
    record {
      typ = type_grey;
      ip = addr_at 8 p;
      helo = cstr (take h (drop (f + t) s));
      from = cstr (take f s);
      to = cstr (take t (drop f s));
      expire = 0;
      is_delete = false;
    }

unfoldable pub addr_entry : ℕ → Bytes → SyncEntry
addr_entry typ p = record {
  typ = typ;
  ip = addr_at 12 p;
  helo = [];
  from = [];
  to = [];
  expire = be_at 4 8 p;
  is_delete = typ == 4 || typ == 5;
}

-- What one record does: it is refused, it ends the packet, or it is an entry.
pub data Step : Type 0 where
  refused finished : Step
  entry : SyncEntry → Step

unfoldable pub read_grey : ℕ → Bytes → Step
unfolding grey_entry
read_grey tl p =
    if ltb tl grey_hdr_len || ltb tl (grey_hdr_len + be_at 2 12 p + be_at 2 14 p + be_at 2 16 p)
    then refused
    else entry (grey_entry p)

unfoldable pub read_tlv : ℕ → ℕ → Bytes → Step
unfolding read_grey addr_entry
read_tlv typ tl p =
    if typ == type_grey
    then read_grey tl p
    else if is_addr_type typ
    then (if not (tl == addr_len) then refused else entry (addr_entry typ p))
    else if typ == 0
    then finished
    else refused

-- The loop of `Decode` over the records: every record has at least four bytes.
abbrev and_then : Step → Result (List SyncEntry) → Result (List SyncEntry)
and_then refused later = err truncated_packet
and_then finished later = ok []
and_then (entry e) (ok es) = ok (e ∷ es)
and_then (entry e) (err x) = err x

unfoldable pub read_tlvs : ℕ → Bytes → Result (List SyncEntry)
unfolding read_tlv
read_tlvs zero p = err truncated_packet
read_tlvs (suc fuel) [] = ok []
read_tlvs (suc fuel) (b ∷ bs) =
    let p = b ∷ bs in
    let tl = be_at 2 2 p in
    let later = read_tlvs fuel (drop tl p) in
    if ltb (length p) 4
    then err truncated_packet
    else if ltb tl 4 || ltb (length p) tl
    then err truncated_packet
    else and_then (read_tlv (be_at 2 0 p) tl p) later

unfoldable pub counted : ℕ → Result (List SyncEntry) → Result Packet
counted counter (ok es) = ok (record { counter = counter; entries = es })
counted counter (err e) = err e

-- The copy of a packet with its MAC cleared.
abbrev pub cleared : Bytes → Bytes
cleared pkt = take 8 pkt ++ (zero_mac ++ drop 28 pkt)

module _ (hmac : Bytes → Bytes → Bytes) (key : Bytes) where
  -- `sign`: bytes 8 to 27 of the packet become the MAC.
  unfoldable pub sign : Bytes → Bytes
  sign pkt = take 8 pkt ++ (take hmac_len (hmac key pkt) ++ drop 28 pkt)

  -- `EncodeGrey`
  unfoldable pub encode_grey : ℕ → Addr → Bytes → Bytes → Bytes → ℕ → Bytes
  encode_grey counter ip helo sender rcpt now =
      sign (unsigned counter (grey_tlv ip helo sender rcpt now ++ end_tlv))

  -- `EncodeAddr`
  unfoldable pub encode_addr : ℕ → ℕ → Addr → ℕ → ℕ → Bytes
  encode_addr counter typ ip now expire =
      sign (unsigned counter (addr_tlv typ ip now expire ++ end_tlv))

  -- `Decode` of a packet cut to its length, then of any packet.
  unfoldable pub decode_cut : Bytes → Result Packet
  unfolding bytes_eq counted
  decode_cut pkt =
      if not (bytes_eq (take hmac_len (drop 8 pkt)) (hmac key (cleared pkt)))
      then err truncated_packet
      else counted (be_at 4 4 pkt) (read_tlvs (suc (length pkt)) (drop hdr_len (cleared pkt)))

  unfoldable pub decode_packet : Bytes → Result Packet
  decode_packet pkt =
      if ltb (length pkt) hdr_len || (not (get_or pkt 0 0 == 2) || not (get_or pkt 1 0 == 2))
      then err truncated_packet
      else if ltb (length pkt) (be_at 2 2 pkt) || ltb (be_at 2 2 pkt) hdr_len
      then err truncated_packet
      else decode_cut (take (be_at 2 2 pkt) pkt)
