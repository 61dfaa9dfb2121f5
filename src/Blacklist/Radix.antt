-- ===== src/Blacklist/Radix.antt =====
-- internal/blacklist/trie.go: the binary trie over network prefixes, one root per address length.
use greyd_v.Base.{
  ◌&&◌, not, ℕ, zero, suc, ◌+◌, ◌-◌, ◌*◌, ◌/◌, ◌%◌, ◌^◌, ◌==◌, if◌then◌else◌, Bytes, Bool, true,
  false, leb, [], ◌∷◌, get_or,
}
use greyd_v.Ip.{Addr, no_addr, bit_len, unmap}

-- netip.Prefix: an address and a number of bits.
pub record Prefix : Type 0 where
  pub addr : Addr
  pub bits : ℕ

-- netip.Prefix.Masked on the bytes: the bits after the first `bits` are cleared.
abbrev keep_high : ℕ → ℕ → ℕ
keep_high bits octet = if leb 8 bits then octet else octet / 2 ^ (8 - bits) * 2 ^ (8 - bits)

unfoldable pub mask_octets : ℕ → Bytes → Bytes
mask_octets bits [] = []
mask_octets bits (o ∷ os) = keep_high bits o ∷ mask_octets (bits - 8) os

unfoldable pub mask_prefix : Prefix → Prefix
mask_prefix p =
    if leb p.bits (bit_len p.addr)
    then record { addr = record { octets = mask_octets p.bits p.addr.octets }; bits = p.bits }
    else record { addr = no_addr; bits = 0 }

-- `(b[i/8] >> (7 - uint(i%8))) & 1` is 1.
abbrev pub bit_at : Bytes → ℕ → Bool
bit_at b i = get_or b (i / 8) 0 / 2 ^ (7 - i % 8) % 2 == 1

-- A node, or the nil pointer.
pub data Node : Type 0 where
  nil : Node
  node : (terminal : Bool) (zero_kid one_kid : Node) → Node

abbrev pub fresh : Node → Node
fresh nil = node false nil nil
fresh (node t k l) = node t k l

abbrev pub kid : Bool → Node → Node
kid b nil = nil
kid false (node t k l) = k
kid true (node t k l) = l

abbrev pub set_kid : Bool → Node → Node → Node
set_kid b n nil = nil
set_kid false n (node t k l) = node t n l
set_kid true n (node t k l) = node t k n

abbrev pub terminal : Node → Bool
terminal nil = false
terminal (node t k l) = t

abbrev pub mark_terminal : Node → Node
mark_terminal nil = nil
mark_terminal (node t k l) = node true k l

-- The loop of `Insert` with `left` rounds to go from bit `i` on; a missing node is made first.
unfoldable pub insert_path : ℕ → ℕ → Bytes → Node → Node
insert_path zero i b n = mark_terminal (fresh n)
insert_path (suc left) i b n =
    set_kid (bit_at b i) (insert_path left (i + 1) b (kid (bit_at b i) (fresh n))) (fresh n)

-- Whether the node that `Insert` ends at was terminal before.
unfoldable pub is_present : ℕ → ℕ → Bytes → Node → Bool
is_present zero i b n = terminal n
is_present (suc left) i b n = is_present left (i + 1) b (kid (bit_at b i) n)

-- The loop of `Contains` with `left` rounds to go.
unfoldable pub contains_path : ℕ → ℕ → Bytes → Node → Bool
contains_path left i b nil = false
contains_path zero i b (node t k l) = t
contains_path (suc left) i b (node t k l) =
    let later = contains_path left (i + 1) b (kid (bit_at b i) (node t k l)) in
    if t then true else later

-- A map missing an address length reads as the nil node there.
pub record Trie : Type 0 where
  pub roots : ℕ → Node
  pub count : ℕ

unfoldable pub new_trie : Trie
new_trie = record { roots = λ family. nil; count = 0 }

-- `Insert`, with its result.
unfoldable pub insert : Prefix → Trie → Bool × Trie
insert p t =
    let q = mask_prefix p in
    let family = bit_len q.addr in
    let root = t.roots family in
    let roots : ℕ → Node =
      λ f. if f == family then insert_path q.bits 0 q.addr.octets root else t.roots f in
    if is_present q.bits 0 q.addr.octets root
    then (false, record { roots = roots; count = t.count })
    else (true, record { roots = roots; count = t.count + 1 })

unfoldable pub contains : Addr → Trie → Bool
contains a t = let b = unmap a in contains_path (bit_len b) 0 b.octets (t.roots (bit_len b))

-- The bits from `i` on of the two agree, `left` of them.
unfoldable pub agree : ℕ → ℕ → Bytes → Bytes → Bool
agree zero i p b = true
agree (suc left) i p b =
    (if bit_at p i then bit_at b i else not (bit_at b i)) && agree left (i + 1) p b
