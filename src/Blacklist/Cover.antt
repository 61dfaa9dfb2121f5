-- ===== src/Blacklist/Cover.antt =====
-- What the trie of internal/blacklist/trie.go answers after an insertion.
use greyd_v.Base.{
  ℕ, zero, suc, ◌+◌, ◌≤◌, ◌≡◌, refl, Bytes, Bool, true, false, not, ◌&&◌, ◌||◌, if◌then◌else◌, sym,
  ap, ◌∙◌, arith,
}
use greyd_v.Base.{
  length, leb, leb→le, ◌==◌, ◌-◌, ◌*◌, [], ◌∷◌, if_rule, ==_iff, Bool-cases, inl, inr,
}
use greyd_v.Ip.{Addr, bit_len, unmap}
use greyd_v.Blacklist.Radix.{
  agree, Prefix, Trie, mask_octets, mask_prefix, insert, contains, is_present, Node, nil, node,
  fresh, kid, set_kid, bit_at, insert_path, contains_path,
}

pub contains_nil : (left i : ℕ) (b : Bytes) → contains_path left i b nil ≡ false
unfolding contains_path
contains_nil zero i b = refl
contains_nil (suc left) i b = refl

contains_fresh :
    (left i : ℕ) (b : Bytes) (n : Node)
    → contains_path left i b (fresh n) ≡ contains_path left i b n
unfolding contains_path
contains_fresh zero i b nil = refl
contains_fresh (suc left) i b nil =
    Bool-rule (λ x. contains_path left (i + 1) b (kid x (node false nil nil)) ≡ false) (bit_at b i)
      (contains_nil left (i + 1) b) (contains_nil left (i + 1) b)
  where
    Bool-rule : (P : Bool → Type 0) (x : Bool) → P true → P false → P x
    Bool-rule P true t f = t
    Bool-rule P false t f = f
contains_fresh zero i b (node t k l) = refl
contains_fresh (suc left) i b (node t k l) = refl

-- The answer at a node, where `C` answers at a kid and `y` is the address's bit.
abbrev level : (Node → Bool) → Bool → Node → Bool
level C y nil = false
level C y (node t k l) = if t then true else C (kid y (node t k l))

contains_path-level :
    (left i : ℕ) (b : Bytes) (n : Node)
    → contains_path (suc left) i b n ≡ level (contains_path left (i + 1) b) (bit_at b i) n
unfolding contains_path
contains_path-level left i b nil = refl
contains_path-level left i b (node t k l) = refl

-- One level: the bit `x` of the prefix leads to the new kid `m`, the bit `y` of the address to one
-- that `C` tests.
one_level :
    (C : Node → Bool) (x y rest t : Bool) (k l m : Node)
    → C m ≡ (C (kid x (node t k l)) || rest)
    → level C y (set_kid x m (node t k l))
      ≡ ((if t then true else C (kid y (node t k l))) || ((if x then y else not y) && rest))
one_level C true y rest true k l m h = refl
one_level C false y rest true k l m h = refl
one_level C true true rest false k l m h = h
one_level C false false rest false k l m h = h
one_level C true false rest false k l m h = or_false (C k)
  where
    or_false : (x : Bool) → x ≡ (x || false)
    or_false x = ground arith
one_level C false true rest false k l m h = or_false (C l)
  where
    or_false : (x : Bool) → x ≡ (x || false)
    or_false x = ground arith

covered_at_node :
    (more i : ℕ) (b : Bytes) (k l : Node) → contains_path more i b (node true k l) ≡ true
unfolding contains_path
covered_at_node zero i b k l = refl
covered_at_node (suc more) i b k l = refl

or_false : (x : Bool) → x ≡ (x || false)
or_false x = ground arith

or_true : (x : Bool) → (x || true) ≡ true
or_true x = ground arith

insert_path-fresh :
    (bits i : ℕ) (p : Bytes) (n : Node) → insert_path bits i p (fresh n) ≡ insert_path bits i p n
unfolding insert_path
insert_path-fresh zero i p nil = refl
insert_path-fresh (suc bits) i p nil = refl
insert_path-fresh zero i p (node t k l) = refl
insert_path-fresh (suc bits) i p (node t k l) = refl

-- A nil node takes an insertion and answers as an empty node does.
module _ (size bits i : ℕ) (p b : Bytes) where
  abbrev Adds : Node → Type 0
  Adds n =
      contains_path size i b (insert_path bits i p n)
      ≡ (contains_path size i b n || agree bits i p b)

  from_node : ((t : Bool) (k l : Node) → Adds (node t k l)) → (n : Node) → Adds n
  from_node h (node t k l) = h t k l
  from_node h nil =
      ap (contains_path size i b) (sym (insert_path-fresh bits i p nil))
      ∙ (h false nil nil ∙ ap (λ x. x || agree bits i p b) (contains_fresh size i b nil))

-- Inserting a prefix that is no longer than an address adds to a trie the addresses that agree with
-- the prefix on its bits, and no others.
pub contains_path-insert_path :
    (size bits i : ℕ) (p b : Bytes) (n : Node)
    → bits ≤ size
    → contains_path size i b (insert_path bits i p n)
      ≡ (contains_path size i b n || agree bits i p b)
unfolding insert_path contains_path agree
contains_path-insert_path size zero i p b n short =
    from_node size zero i p b
      (λ t k l. covered_at_node size i b k l ∙ sym (or_true (contains_path size i b (node t k l))))
      n
contains_path-insert_path zero (suc bits) i p b n short = absurd (omega arith)
contains_path-insert_path (suc size) (suc bits) i p b n short =
    from_node (suc size) (suc bits) i p b
      (λ t k l.
        contains_path-level size i b (
          set_kid (bit_at p i) (insert_path bits (i + 1) p (kid (bit_at p i) (node t k l)))
            (node t k l))
        ∙ one_level (contains_path size (i + 1) b) (bit_at p i) (bit_at b i)
            (agree bits (i + 1) p b) t k l
            (insert_path bits (i + 1) p (kid (bit_at p i) (node t k l)))
            (contains_path-insert_path size bits (i + 1) p b (kid (bit_at p i) (node t k l))
              (omega arith)))
      n

length-mask_octets : (n : ℕ) (b : Bytes) → length (mask_octets n b) ≡ length b
unfolding mask_octets
length-mask_octets n [] = refl
length-mask_octets n (o ∷ os) = ap suc (length-mask_octets (n - 8) os)

mask_prefix_lem :
    (p : Prefix)
    → leb p.bits (bit_len p.addr) ≡ true
    → mask_prefix p
      ≡ record { addr = record { octets = mask_octets p.bits p.addr.octets }; bits = p.bits }
unfolding mask_prefix
mask_prefix_lem p valid = rw valid refl

-- Whether the prefix was there already changes the count alone.
root_at :
    (p : Prefix) (t : Trie) (family : ℕ)
    → (insert p t).1.roots family ≡ (
        if family == bit_len (mask_prefix p).addr
        then insert_path
            (mask_prefix p).bits
            0
            (mask_prefix p).addr.octets
            (t.roots (bit_len (mask_prefix p).addr))
        else t.roots family)
unfolding insert
root_at p t family =
    if_rule Rooted (is_present q.bits 0 q.addr.octets (t.roots (bit_len q.addr))) (λ old. refl)
      (λ new. refl)
  where
    q : Prefix
    q = mask_prefix p

    roots : ℕ → Node
    roots = λ f.
        if f == bit_len q.addr
        then insert_path q.bits 0 q.addr.octets (t.roots (bit_len q.addr))
        else t.roots f

    Rooted : Bool × Trie → Type 0
    Rooted r = r.1.roots family ≡ roots family

root_after :
    (p : Prefix) (t : Trie) (family : ℕ)
    → leb p.bits (bit_len p.addr) ≡ true
    → (insert p t).1.roots family ≡ (
        if family == bit_len p.addr
        then insert_path p.bits 0 (mask_octets p.bits p.addr.octets) (t.roots (bit_len p.addr))
        else t.roots family)
root_after p t family valid =
    root_at p t family
    ∙ ap
        (λ (q : Prefix).
          if family == bit_len q.addr
          then insert_path q.bits 0 q.addr.octets (t.roots (bit_len q.addr))
          else t.roots family)
        (mask_prefix_lem p valid)
    ∙ ap
        (λ n.
          if family == 8 * n
          then insert_path p.bits 0 (mask_octets p.bits p.addr.octets) (t.roots (8 * n))
          else t.roots family)
        (length-mask_octets p.bits p.addr.octets)

covered_at_root :
    (x y bits : ℕ) (m b : Bytes) (roots : ℕ → Node)
    → bits ≤ y
    → contains_path x 0 b (if x == y then insert_path bits 0 m (roots y) else roots x)
      ≡ (contains_path x 0 b (roots x) || (x == y && agree bits 0 m b))
covered_at_root x y bits m b roots short = elim (Bool-cases (x == y)) [
  | inl same ↦
      let e = (==_iff x y).0 same in
      rw same (
        ap (λ n. contains_path x 0 b (insert_path bits 0 m (roots n))) (sym e)
        ∙ contains_path-insert_path x bits 0 m b (roots x) (omega arith))
  | inr other ↦ rw other (or_false (contains_path x 0 b (roots x)))
]

-- After a valid prefix is inserted, the trie covers an address exactly when it did before, or the
-- address has the prefix's length and agrees with the masked prefix on its bits.
pub contains-insert :
    (p : Prefix) (a : Addr) (t : Trie)
    → leb p.bits (bit_len p.addr) ≡ true
    → contains a (insert p t).1 ≡ (
        contains a t
        || (bit_len (unmap a) == bit_len p.addr
            && agree p.bits 0 (mask_octets p.bits p.addr.octets) (unmap a).octets))
unfolding contains
contains-insert p a t valid =
    let b = unmap a in
    ap (contains_path (bit_len b) 0 b.octets) (root_after p t (bit_len b) valid)
    ∙ covered_at_root (bit_len b) (bit_len p.addr) p.bits (mask_octets p.bits p.addr.octets)
        b.octets t.roots (leb→le p.bits (bit_len p.addr) valid)
