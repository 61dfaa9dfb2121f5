-- ===== src/Ip.antt =====
-- internal/ip/ip.go: addresses, IPv4 ranges and CIDR blocks. A uint32 is a number below 2 ^ 32,
-- with every wrap-around written out.
pub mod Decompose
use greyd_v.Base.{
  ℕ, zero, suc, ◌+◌, ◌-◌, ◌*◌, ◌/◌, ◌%◌, ◌^◌, Bytes, ◌==◌, if◌then◌else◌, bytes_eq, ltb, leb, Bool,
  true, false, not, ◌&&◌, List, [], ◌∷◌, ◌++◌, Option, none, some, length, take, drop, replicate,
  any,
}
use greyd_v.Base.Int.{ℤ, pos, negsuc}

-- netip.Addr by its bytes: 4 of them, 16, or none for the zero Addr. Zones are not modelled.
pub record Addr : Type 0 where
  pub octets : Bytes

abbrev pub no_addr : Addr
no_addr = record { octets = [] }

abbrev pub is4 : Addr → Bool
is4 a = length a.octets == 4

abbrev pub is_valid : Addr → Bool
is_valid a = not (length a.octets == 0)

abbrev pub bit_len : Addr → ℕ
bit_len a = 8 * length a.octets

-- The prefix of an IPv4-mapped IPv6 address.
abbrev pub mapped_prefix : Bytes
mapped_prefix = 0 ∷ 0 ∷ 0 ∷ 0 ∷ 0 ∷ 0 ∷ 0 ∷ 0 ∷ 0 ∷ 0 ∷ 255 ∷ 255 ∷ []

unfoldable pub unmap : Addr → Addr
unfolding bytes_eq
unmap a =
    if length a.octets == 16 && bytes_eq (take 12 a.octets) mapped_prefix
    then record { octets = drop 12 a.octets }
    else a

abbrev pub u32 : ℕ
u32 = 2 ^ 32

-- uint32(1) << n for a uint8 count: 0 from 32 on.
abbrev pub shl_one : ℕ → ℕ
shl_one n = 2 ^ n % u32

-- A uint8 subtraction 32 - b.
abbrev pub sub_bits : ℕ → ℕ
sub_bits b = (32 + 256 - b) % 256

pub record Cidr : Type 0 where
  pub addr : ℕ
  pub bits : ℕ

unfoldable pub uint32_to_addr : ℕ → Addr
uint32_to_addr a = record {
  octets = (a / 2 ^ 24 % 256) ∷ (a / 2 ^ 16 % 256) ∷ (a / 2 ^ 8 % 256) ∷ (a % 256) ∷ [];
}

four_octets : Bytes → ℕ
four_octets (a ∷ b ∷ c ∷ d ∷ []) = a * 2 ^ 24 + b * 2 ^ 16 + c * 2 ^ 8 + d
four_octets _ = 0

unfoldable pub addr_to_uint32 : Addr → ℕ
unfolding unmap four_octets
addr_to_uint32 a = if is4 (unmap a) then four_octets (unmap a).octets else 0

-- The first and the last address; the sum and the difference are of uint32.
unfoldable pub cidr_to_range : Cidr → ℕ × ℕ
cidr_to_range c = (c.addr, (c.addr + shl_one (sub_bits c.bits) + u32 - 1) % u32)

-- a & imask(b), where imask(b) is 0 for b = 0 and 0xffffffff << (32 - b) else: the b high bits of a
-- uint32, for b up to 32.
unfoldable pub masked : ℕ → ℕ → ℕ
masked a b = if b == 0 then 0 else a / 2 ^ (32 - b) * 2 ^ (32 - b)

-- The loop of `maxDiff` from `bits` on, with `left` rounds to go.
unfoldable pub max_diff_from : ℕ → ℕ → ℕ → ℕ → ℕ
max_diff_from zero bits a b = 32
max_diff_from (suc left) bits a b =
    let later = max_diff_from left (bits + 1) a b in
    if not (masked a bits == masked b bits) then bits else later

unfoldable pub max_diff : ℕ → ℕ → ℕ
max_diff a b = max_diff_from 32 0 a ((b + 1) % u32)

unfoldable pub max_block : ℕ → ℕ → ℕ
max_block addr zero = 0
max_block addr (suc bits) =
    let later = max_block addr bits in if not (masked addr bits == addr) then suc bits else later

-- One round's block: its prefix length.
unfoldable pub block_bits : ℕ → ℕ → ℕ
block_bits start end =
    let maxsize = max_block start 32 in
    let diff = max_diff start end in if ltb maxsize diff then diff else maxsize

-- The loop of `RangeToCIDRs`, as networks; `none` when the fuel runs out.
unfoldable pub cons_cidr : Cidr → Option (List Cidr) → Option (List Cidr)
cons_cidr c none = none
cons_cidr c (some cs) = some (c ∷ cs)

unfoldable pub range_to_cidrs_fuel : ℕ → ℕ → ℕ → Option (List Cidr)
unfolding cons_cidr
range_to_cidrs_fuel zero start end = none
range_to_cidrs_fuel (suc fuel) start end =
    let bits = block_bits start end in
    let step = shl_one (sub_bits bits) in
    let next = (start + step) % u32 in
    let block : Cidr = record { addr = start; bits = bits } in
    let later = cons_cidr block (range_to_cidrs_fuel fuel next end) in
    if not (leb start end) then some [] else if ltb next start then some (block ∷ []) else later

abbrev pub networks : Option (List Cidr) → List Cidr
networks none = []
networks (some cs) = cs

-- `RangeToCIDRs`, before the networks are printed; one round more than there are addresses.
unfoldable pub range_to_cidrs : ℕ → ℕ → List Cidr
range_to_cidrs start end = networks (range_to_cidrs_fuel (suc u32) start end)

-- Where netip.ParseAddr reads an address.
module _ (parse_addr : Bytes → Option Addr) where
  family_of : Addr → ℕ
  family_of a = if is4 (unmap a) then 4 else 6

  check : Option Addr → ℤ
  check none = negsuc 0
  check (some a) = pos (family_of a)

  -- `CheckAddr`: 4, 6 or -1.
  unfoldable pub check_addr : Bytes → ℤ
  unfolding check family_of
  check_addr s = check (parse_addr s)
