-- ===== src/Smtp/Counters.antt =====
-- `Counters` of internal/smtp/conn.go. A method holds the lock throughout, so it is one step. The
-- counts of live connections are not wrapped at 64 bits.
pub mod Live
pub mod Kept
pub mod Limits
use greyd_v.Base.{
  ℕ, zero, suc, ◌+◌, ◌-◌, ◌==◌, if◌then◌else◌, Bytes, bytes_eq, Bool, true, false, not, ◌&&◌, ltb,
  leb, length,
}
use greyd_v.Base.Int.{ℤ, pos, negsuc}
use greyd_v.Ip.{Addr, is_valid}

-- `per_source` reads 0 where the map has no key; a deleted key reads 0 again.
pub record Counters : Type 0 where
  pub clients : ℤ
  pub black_clients : ℤ
  pub max_cons : ℕ
  pub max_black : ℕ
  pub max_cons_per_source : ℕ
  pub per_source : Bytes → ℕ
  pub accepted : ℕ
  pub accepted_black : ℕ
  pub refused_full : ℕ
  pub refused_source : ℕ

abbrev pub up : ℤ → ℤ
up (pos n) = pos (suc n)
up (negsuc zero) = pos 0
up (negsuc (suc n)) = negsuc n

abbrev pub down : ℤ → ℤ
down (pos zero) = negsuc 0
down (pos (suc n)) = pos n
down (negsuc n) = negsuc (suc n)

-- c >= n for a limit n.
abbrev pub reaches : ℤ → ℕ → Bool
reaches (pos m) n = leb n m
reaches (negsuc m) n = false

unfoldable pub new_counters : ℕ → ℕ → Counters
new_counters max_cons max_black = record {
  clients = pos 0;
  black_clients = pos 0;
  max_cons = max_cons;
  max_black = max_black;
  max_cons_per_source = 0;
  per_source = λ a. 0;
  accepted = 0;
  accepted_black = 0;
  refused_full = 0;
  refused_source = 0;
}

-- The map with `src` set to `n`.
abbrev pub set_source : Bytes → ℕ → (Bytes → ℕ) → Bytes → ℕ
set_source src n m a = if bytes_eq a src then n else m a

unfoldable pub add_source : Addr → (Bytes → ℕ) → Bytes → ℕ
add_source src m = if is_valid src then set_source src.octets (m src.octets + 1) m else m

-- One less, or the key deleted.
unfoldable pub drop_source : Addr → (Bytes → ℕ) → Bytes → ℕ
drop_source src m =
    if is_valid src
    then (if leb (m src.octets) 1
        then set_source src.octets 0 m
        else set_source src.octets (m src.octets - 1) m)
    else m

unfoldable pub count_refused : Bool → Counters → Counters
count_refused by_source c =
    if by_source
    then record c { refused_source = c.refused_source + 1 }
    else record c { refused_full = c.refused_full + 1 }

unfoldable pub is_full : Counters → Bool
is_full c = ltb 0 c.max_cons && reaches c.clients c.max_cons

unfoldable pub is_source_full : Addr → Counters → Bool
is_source_full src c =
    ltb 0 c.max_cons_per_source
    && (is_valid src && leb c.max_cons_per_source (c.per_source src.octets))

unfoldable pub admit : Addr → Counters → Counters
admit src c = record c {
  clients = up c.clients;
  accepted = c.accepted + 1;
  per_source = add_source src c.per_source;
}

-- `reserve`
unfoldable pub reserve : Addr → Counters → Bool × Counters
reserve src c =
    if is_full c
    then (false, count_refused false c)
    else if is_source_full src c
    then (false, count_refused true c)
    else (true, admit src c)

-- `markBlack`
unfoldable pub mark_black : Counters → ℤ × Counters
mark_black c = (
  up c.black_clients,
  record c { black_clients = up c.black_clients; accepted_black = c.accepted_black + 1 },
)

-- `rematchAfterProxy`: a client is not blacklisted after all.
unfoldable pub unmark_black : Counters → Counters
unmark_black c = record c { black_clients = down c.black_clients }

-- `reassignSource`
unfoldable pub reassign_source : Addr → Addr → Counters → Counters
reassign_source old new c =
    if bytes_eq old.octets new.octets
    then c
    else record c { per_source = add_source new (drop_source old c.per_source) }

-- `remove`
unfoldable pub remove : Addr → Bool → Counters → Counters
remove src black c = record c {
  clients = down c.clients;
  black_clients = (if black then down c.black_clients else c.black_clients);
  per_source = drop_source src c.per_source;
}
