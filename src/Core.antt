-- ===== src/Core.antt =====
-- internal/core/tuple.go and internal/core/store.go: tuples, database keys and entries.
pub mod Email
use greyd_v.Base.{
  ℕ, ◌+◌, not, Bytes, ◌==◌, ◌||◌, ltb, leb, if◌then◌else◌, Bool, true, false, ◌&&◌, [], ◌∷◌, List,
}
use greyd_v.Base.Int.{ℤ, pos, negsuc, InRange}

-- GREY_MAX_MAIL
abbrev pub max_mail : ℕ
max_mail = 1024

pub record Tuple : Type 0 where
  pub ip : Bytes
  pub helo : Bytes
  pub from : Bytes
  pub to : Bytes

abbrev pub no_tuple : Tuple
no_tuple = record { ip = []; helo = []; from = []; to = [] }

-- The bytes that `NormalizeEmail` drops: backslash, double quote and angle brackets.
abbrev pub is_stripped : ℕ → Bool
is_stripped c = c == 92 || (c == 34 || (c == b'<' || c == b'>'))

abbrev pub is_upper : ℕ → Bool
is_upper c = leb b'A' c && leb c b'Z'

-- `c += 'a' - 'A'` on an upper case letter.
unfoldable pub to_lower : ℕ → ℕ
to_lower c = if is_upper c then c + 32 else c

-- The loop of `NormalizeEmail`, with `n` bytes written so far.
unfoldable pub normalize_from : ℕ → Bytes → Bytes
normalize_from n [] = []
normalize_from n (c ∷ cs) =
    let skip = normalize_from n cs in
    let keep = to_lower c ∷ normalize_from (n + 1) cs in
    if not (ltb n 1023) then [] else if is_stripped c then skip else keep

unfoldable pub normalize_email : Bytes → Bytes
unfolding normalize_from
normalize_email = normalize_from 0

-- A key type is an int; any byte may come back from the database.
abbrev pub KeyType : Type 0
KeyType = ℕ

abbrev pub key_ip : KeyType
key_ip = 1

abbrev pub key_mail : KeyType
key_mail = 2

abbrev pub key_tuple : KeyType
key_tuple = 3

abbrev pub key_domain : KeyType
key_domain = 4

abbrev pub key_domain_part : KeyType
key_domain_part = 5

pub record Key : Type 0 where
  pub typ : KeyType
  pub str : Bytes
  pub tuple : Tuple

abbrev pub str_key : KeyType → Bytes → Key
str_key t s = record { typ = t; str = s; tuple = no_tuple }

abbrev pub ip_key : Bytes → Key
ip_key = str_key 1

abbrev pub mail_key : Bytes → Key
mail_key = str_key 2

abbrev pub domain_key : Bytes → Key
domain_key = str_key 4

abbrev pub domain_part_key : Bytes → Key
domain_part_key = str_key 5

abbrev pub tuple_key : Tuple → Key
tuple_key t = record { typ = 3; str = []; tuple = t }

-- The counters of an entry; every field is a 64-bit signed integer.
pub record Entry : Type 0 where
  pub first : ℤ
  pub pass : ℤ
  pub expire : ℤ
  pub bcount : ℤ
  pub pcount : ℤ

abbrev pub no_entry : Entry
no_entry = record { first = pos 0; pass = pos 0; expire = pos 0; bcount = pos 0; pcount = pos 0 }

-- The sentinels: -1, -2 and -3.
abbrev pub pcount_trapped : ℤ
pcount_trapped = negsuc 0

abbrev pub pcount_spamtrap : ℤ
pcount_spamtrap = negsuc 1

abbrev pub pcount_domain : ℤ
pcount_domain = negsuc 2

-- The values that the Go struct can hold.
pub record EntryInRange (d : Entry) : Type 0 where
  pub first : InRange d.first
  pub pass : InRange d.pass
  pub expire : InRange d.expire
  pub bcount : InRange d.bcount
  pub pcount : InRange d.pcount

pub record ScanResult : Type 0 where
  pub whitelist : List Bytes
  pub whitelist_v6 : List Bytes
  pub traplist : List Bytes
