-- ===== src/Blacklist.antt =====
-- internal/blacklist/blacklist.go: a named list of networks, as a trie or as prefixes and ranges.
pub mod Radix
pub mod Cover
pub mod Storages
use greyd_v.Base.{
  ℕ, ◌+◌, ◌-◌, ◌%◌, ◌==◌, if◌then◌else◌, Bytes, Bool, true, false, not, ◌&&◌, ltb, leb, List, [],
  ◌∷◌, ◌++◌, Option, none, some, any,
}
use greyd_v.Base.Int.{ℤ, pos, negsuc, add64, ltb_ℤ, eq_ℤ}
use greyd_v.Ip.{Addr, bit_len, unmap, u32, Cidr, range_to_cidrs}
use greyd_v.Blacklist.Radix.{Prefix, Trie, new_trie, insert, contains, agree}

pub data Storage : Type 0 where
  list_storage : Storage
  trie_storage : Storage

pub data Colour : Type 0 where
  white : Colour
  black : Colour

-- rangeEntry
pub record RangeEntry : Type 0 where
  pub addr : ℕ
  pub black_change : ℤ
  pub white_change : ℤ

pub record Blacklist : Type 0 where
  pub name : Bytes
  pub rejection : Bytes
  pub count : ℕ
  pub storage : Storage
  pub trie : Trie
  pub prefixes : List Prefix
  pub ranges : List RangeEntry

-- `New`; the trie of a list-mode blacklist is not used.
unfoldable pub new_blacklist : Bytes → Bytes → Storage → Blacklist
new_blacklist name text s = record {
  name = name;
  rejection = text;
  count = 0;
  storage = s;
  trie = new_trie;
  prefixes = [];
  ranges = [];
}

abbrev store_prefix : Storage → Prefix → Blacklist → Blacklist
store_prefix trie_storage p b = record b { trie = (insert p b.trie).1 }
store_prefix list_storage p b = record b { prefixes = b.prefixes ++ (p ∷ []) }

-- `Add`, on the prefix that ip.ParsePrefix reads, or `none` where it fails.
unfoldable pub add : Option Prefix → Blacklist → Option Blacklist
add none b = none
add (some p) b = some (store_prefix b.storage p (record b { count = b.count + 1 }))

-- netip.Prefix.Contains: the same address length, not the zero one, and the same first bits.
unfoldable pub covers : Prefix → Addr → Bool
unfolding agree
covers p a =
    not (bit_len a == 0)
    && (bit_len p.addr == bit_len a
        && (leb p.bits (bit_len a) && agree p.bits 0 p.addr.octets a.octets))

match_in : Storage → Addr → Blacklist → Bool
match_in trie_storage a b = contains a b.trie
match_in list_storage a b = any (λ p. covers p a) b.prefixes

-- `Match`; `none` is the nil blacklist.
unfoldable pub is_match : Addr → Option Blacklist → Bool
unfolding match_in
is_match a none = false
is_match a (some b) = match_in b.storage (unmap a) b

boundary : Colour → ℕ → ℤ → RangeEntry
boundary white addr change = record { addr = addr; black_change = pos 0; white_change = change }
boundary black addr change = record { addr = addr; black_change = change; white_change = pos 0 }

-- `AddRange`.
unfoldable pub add_range : ℕ → ℕ → Colour → Blacklist → Blacklist
unfolding boundary
add_range start end t b = if ltb end start then b else record b {
  ranges = b.ranges ++ (boundary t start (pos 1) ∷ boundary t end (negsuc 0) ∷ []);
  count = b.count + 2;
}

-- sort.SliceStable by the address.
insert_range : RangeEntry → List RangeEntry → List RangeEntry
insert_range e [] = e ∷ []
insert_range e (f ∷ fs) =
    let rest = insert_range e fs in if leb e.addr f.addr then e ∷ (f ∷ fs) else f ∷ rest

unfoldable pub sort_ranges : List RangeEntry → List RangeEntry
unfolding insert_range
sort_ranges [] = []
sort_ranges (e ∷ es) = insert_range e (sort_ranges es)

-- The variables of the loop of `Collapse`; `is_black` is `state` as a test.
pub record Sweep : Type 0 where
  pub blacks : ℤ
  pub whites : ℤ
  pub is_black : Bool
  pub black_start : ℕ
  pub cidrs : List Cidr

unfoldable pub sweep_start : Sweep
sweep_start = record {
  blacks = pos 0;
  whites = pos 0;
  is_black = false;
  black_start = 0;
  cidrs = [];
}

unfoldable pub count_entry : RangeEntry → Sweep → Sweep
count_entry e s = record s {
  blacks = add64 s.blacks e.black_change;
  whites = add64 s.whites e.white_change;
}

-- The new state at the end of an address's entries.
unfoldable pub next_black : Sweep → Bool
next_black s =
    let now =
      if s.is_black && eq_ℤ s.blacks (pos 0)
      then false
      else if not s.is_black && ltb_ℤ (pos 0) s.blacks
      then true
      else s.is_black in
    if ltb_ℤ (pos 0) s.whites then false else now

-- A region starts at `addr`, ends before it, or goes on.
unfoldable pub settle_to : Bool → Bool → ℕ → Sweep → Sweep
settle_to false true addr s = record s { is_black = true; black_start = addr }
settle_to true false addr s = record s {
  is_black = false;
  cidrs = s.cidrs ++ range_to_cidrs s.black_start ((addr + u32 - 1) % u32);
}
settle_to last now addr s = record s { is_black = now }

unfoldable pub settle : ℕ → Sweep → Sweep
unfolding settle_to next_black
settle addr s = settle_to s.is_black (next_black s) addr s

-- Whether the next entry is at this address.
same_addr : ℕ → List RangeEntry → Bool
same_addr addr [] = false
same_addr addr (e ∷ es) = e.addr == addr

unfoldable pub sweep : List RangeEntry → Sweep → Sweep
unfolding same_addr count_entry
sweep [] s = s
sweep (e ∷ es) s =
    let counted = count_entry e s in
    sweep es (if same_addr e.addr es then counted else settle e.addr counted)

-- `Collapse`, with the networks before they are printed.
unfoldable pub collapse : Blacklist → List Cidr
collapse b = (sweep (sort_ranges b.ranges) sweep_start).cidrs
