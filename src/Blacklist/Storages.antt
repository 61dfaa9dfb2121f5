-- ===== src/Blacklist/Storages.antt =====
-- The two storages of internal/blacklist/blacklist.go match the same addresses.
use greyd_v.Base.{◌+◌, ◌≤◌, true, leb, List, [], ◌∷◌, ◌++◌, Option, none, some, any, ◌≡◌}
use greyd_v.Ip.{Addr, bit_len, unmap}
use greyd_v.Blacklist.Radix.{Prefix, mask_octets, insert, contains}
use greyd_v.Blacklist.{Blacklist, list_storage, trie_storage, add, covers}

-- What ip.ParsePrefix returns: at least one bit, no more than the address has, and nothing after them.
pub record Parsed (p : Prefix) : Type 0 where
  pub some_bits : 1 ≤ p.bits
  pub in_length : leb p.bits (bit_len p.addr) ≡ true
  pub is_masked : mask_octets p.bits p.addr.octets ≡ p.addr.octets

-- Unmapping it again changes nothing.
data Settled (a : Addr) : Type 0 where
  settled : unmap a ≡ a → Settled a

-- `Add` of each prefix in turn.
unfoldable pub add_all : List Prefix → Option Blacklist → Option Blacklist
add_all [] o = o
add_all (p ∷ ps) none = none
add_all (p ∷ ps) (some b) = add_all ps (add (some p) b)

abbrev in_trie : Prefix → Blacklist → Blacklist
in_trie p b = record b { count = b.count + 1; trie = (insert p b.trie).1 }

abbrev in_list : Prefix → Blacklist → Blacklist
in_list p b = record b { count = b.count + 1; prefixes = b.prefixes ++ (p ∷ []) }

-- The trie of the one covers what a prefix of the other does.
record Same (b c : Blacklist) : Type 0 where
  is_trie : b.storage ≡ trie_storage
  is_list : c.storage ≡ list_storage
  covered : (a : Addr) → contains a b.trie ≡ any (λ p. covers p (unmap a)) c.prefixes
