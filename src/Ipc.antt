-- ===== src/Ipc.antt =====
-- internal/ipc: the messages between the processes, their text and their frames. This module is the
-- message types of codec.go and the table of a frame's assignments.
pub mod Utf8
pub mod Scan
pub mod Classify
pub mod Writer
pub mod Frame
pub mod Fields
pub mod Lines
pub mod Grey
pub mod Delivery
use greyd_v.Base.{
  ℕ, ◌==◌, Bytes, bytes_eq, if◌then◌else◌, Bool, true, false, List, [], ◌∷◌, ◌++◌, Option, none,
  some, ltb, ◌/◌, ◌%◌, ◌+◌, zero, suc,
}
use greyd_v.Core.{Tuple}

-- StatsReply's counters are in the order of the assignments.
pub data Message : Type 0 where
  grey_message : (tuple : Tuple) (dst_ip : Bytes) (sync : Bool) → Message
  addr_message : (typ : ℕ) (ip source expires : Bytes) (sync is_delete : Bool) → Message
  blacklist_message : (name text : Bytes) (ips : List Bytes) → Message
  replace_request : (set : Bytes) (af : ℕ) (ips : List Bytes) → Message
  nat_request : (src : Bytes) (src_port : ℕ) (proxy : Bytes) (proxy_port : ℕ) → Message
  dst_reply : (dst : Bytes) → Message
  stats_request : Message
  stats_reply : (counters : List (Bytes × ℕ)) (blacklists : List Bytes) → Message
  scan_stats : (at grey white trapped spamtrap domain : ℕ) → Message

-- A decoded assignment; the text has no sign, so an integer is not negative.
pub data Value : Type 0 where
  int_value : ℕ → Value
  str_value : Bytes → Value
  list_value : List Bytes → Value

abbrev pub Fields : Type 0
Fields = List (Bytes × Value)

unfoldable pub set_field : Bytes → Value → Fields → Fields
set_field k v [] = (k, v) ∷ []
set_field k v ((j, w) ∷ f) = if bytes_eq j k then (k, v) ∷ f else (j, w) ∷ set_field k v f

unfoldable pub field : Bytes → Fields → Option Value
field k [] = none
field k ((j, v) ∷ f) = if bytes_eq j k then some v else field k f

-- strconv.Itoa of an int: 19 digits are enough for one.
unfoldable pub itoa_fuel : ℕ → ℕ → Bytes
itoa_fuel zero n = []
itoa_fuel (suc fuel) n =
    let more = itoa_fuel fuel (n / 10) in
    if ltb n 10 then (48 + n) ∷ [] else more ++ ((48 + n % 10) ∷ [])

unfoldable pub itoa : ℕ → Bytes
itoa n = itoa_fuel 19 n

-- The methods of `fields`.
str_of : Option Value → Option Bytes
str_of none = none
str_of (some (int_value n)) = some (itoa n)
str_of (some (str_value s)) = some s
str_of (some (list_value l)) = none

unfoldable pub str_field : Bytes → Fields → Option Bytes
unfolding str_of field
str_field name f = str_of (field name f)

int_of : Option Value → Option ℕ
int_of (some (int_value n)) = some n
int_of _ = none

unfoldable pub int_field : Bytes → Fields → Option ℕ
unfolding int_of field
int_field name f = int_of (field name f)

strings_of : Option Value → Option (List Bytes)
strings_of (some (list_value l)) = some l
strings_of (some (str_value s)) = some (s ∷ [])
strings_of _ = none

unfoldable pub strings_field : Bytes → Fields → Option (List Bytes)
unfolding strings_of field
strings_field name f = strings_of (field name f)
