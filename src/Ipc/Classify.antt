-- ===== src/Ipc/Classify.antt =====
-- `classify` of internal/ipc/codec.go: the message that a table of assignments is.
use greyd_v.Base.{
  ℕ, ◌==◌, Bytes, bytes_eq, if◌then◌else◌, Bool, true, false, not, ◌||◌, leb, List, [], ◌∷◌, Option,
  none, some, codes,
}
use greyd_v.Result.{Result, ok, err, missing_field, unknown_message, ◌>>=◌}
use greyd_v.Ipc.{
  Message, grey_message, addr_message, blacklist_message, replace_request, nat_request, dst_reply,
  stats_request, stats_reply, scan_stats, Value, int_value, Fields, field, str_field, int_field,
  strings_field,
}

-- `need`
or_missing : Bytes → Option Bytes → Result Bytes
or_missing name none = err (missing_field name)
or_missing name (some s) = ok s

unfoldable pub need : Bytes → Fields → Result Bytes
unfolding or_missing
need name f = or_missing name (str_field name f)

-- The value where there is one.
abbrev pub or_else {ℓ} : {T : Type ℓ} → T → Option T → T
or_else d none = d
or_else d (some x) = x

abbrev non_zero : Bool → Option ℕ → Bool
non_zero d none = d
non_zero d (some n) = not (n == 0)

grey_of : Fields → Result Message
unfolding need
grey_of f = do
  ip ← need (codes "ip") f
  helo ← need (codes "helo") f
  sender ← need (codes "from") f
  rcpt ← need (codes "to") f
  ok (
      grey_message (record { ip = ip; helo = helo; from = sender; to = rcpt })
        (or_else [] (str_field (codes "dst_ip") f)) (non_zero true (int_field (codes "sync") f)))

addr_of : ℕ → Fields → Result Message
unfolding need
addr_of typ f = do
  ip ← need (codes "ip") f
  source ← need (codes "source") f
  expires ← need (codes "expires") f
  ok (
      addr_message typ ip source expires (non_zero true (int_field (codes "sync") f))
        (non_zero false (int_field (codes "delete") f)))

-- The messages whose type is a number.
by_number : ℕ → Fields → Result Message
unfolding grey_of addr_of
by_number n f =
    if n == 1 then grey_of f else if n == 2 || n == 3 then addr_of n f else err unknown_message

-- The integers of a table, without the type.
counters_of : Fields → List (Bytes × ℕ)
counters_of [] = []
counters_of ((name, int_value n) ∷ f) =
    let rest = counters_of f in if bytes_eq name (codes "type") then rest else (name, n) ∷ rest
counters_of ((name, v) ∷ f) = counters_of f

port_of : Option ℕ → ℕ
port_of none = 0
port_of (some p) = if leb p 65535 then p else 0

-- The messages whose type is a text; 4 is core.IPv4.
by_text : Bytes → Fields → Result Message
unfolding bytes_eq counters_of port_of
by_text typ f =
    if bytes_eq typ (codes "stats")
    then ok stats_request
    else if bytes_eq typ (codes "stats_reply")
    then ok (stats_reply (counters_of f) (or_else [] (strings_field (codes "blacklists") f)))
    else if bytes_eq typ (codes "scan_stats")
    then ok (
        scan_stats (or_else 0 (int_field (codes "at") f)) (or_else 0 (int_field (codes "grey") f))
          (or_else 0 (int_field (codes "white") f)) (or_else 0 (int_field (codes "trapped") f))
          (or_else 0 (int_field (codes "spamtrap") f)) (or_else 0 (int_field (codes "domain") f)))
    else if bytes_eq typ (codes "replace")
    then ok (
        replace_request (or_else [] (str_field (codes "name") f))
          (or_else 4 (int_field (codes "af") f)) (or_else [] (strings_field (codes "ips") f)))
    else if bytes_eq typ (codes "nat")
    then ok (
        nat_request (or_else [] (str_field (codes "src") f))
          (port_of (int_field (codes "src_port") f)) (or_else [] (str_field (codes "proxy") f))
          (port_of (int_field (codes "proxy_port") f)))
    else err unknown_message

-- A blacklist, which is known by its addresses.
ips_of : Bytes → Bytes → Option (List Bytes) → Result Message
ips_of name text none = err (missing_field (codes "ips"))
ips_of name text (some ips) = ok (blacklist_message name text ips)

blacklist_of : Fields → Result Message
unfolding need ips_of
blacklist_of f = do
  name ← need (codes "name") f
  text ← need (codes "message") f
  ips_of name text (strings_field (codes "ips") f)

dst_of : Option Bytes → Result Message
dst_of none = err unknown_message
dst_of (some dst) = ok (dst_reply dst)

without_type : Option Value → Fields → Result Message
unfolding blacklist_of dst_of
without_type none f = dst_of (str_field (codes "dst") f)
without_type (some v) f = blacklist_of f

text_type : Option Bytes → Fields → Result Message
unfolding by_text without_type
text_type none f = without_type (field (codes "ips") f) f
text_type (some typ) f = by_text typ f

number_type : Option ℕ → Fields → Result Message
unfolding by_number text_type
number_type none f = text_type (str_field (codes "type") f) f
number_type (some n) f = by_number n f

unfoldable pub classify : Fields → Result Message
unfolding number_type
classify f = number_type (int_field (codes "type") f) f
