-- ===== src/Smtp/Counters/Live.antt =====
-- The counters of internal/smtp/conn.go against the connections that are open.
use greyd_v.Base.{
  ℕ, suc, ◌+◌, ◌-◌, if◌then◌else◌, if_rule, Bytes, bytes_eq, bytes_eq_iff, Bool, true, false, ◌&&◌,
  leb, length, List, [], ◌∷◌, ◌≡◌, refl, arith, ap,
}
use greyd_v.Base.Int.{pos}
use greyd_v.Ip.{Addr, is_valid}
use greyd_v.Smtp.Counters.{Counters, add_source, drop_source, set_source}

-- An open connection: its source and whether it was marked as blacklisted.
pub record Client : Type 0 where
  pub src : Addr
  pub is_black : Bool

abbrev pub one_if : Bool → ℕ
one_if b = if b then 1 else 0

abbrev pub from_source : Bytes → Addr → Bool
from_source a src = is_valid src && bytes_eq a src.octets

unfoldable pub blacks : List Client → ℕ
blacks [] = 0
blacks (l ∷ ls) = one_if l.is_black + blacks ls

unfoldable pub sources : Bytes → List Client → ℕ
sources a [] = 0
sources a (l ∷ ls) = one_if (from_source a l.src) + sources a ls

-- `rest` is `live` without one occurrence of `l`.
pub data Without (l : Client) : (live rest : List Client) → Type 0 where
  here : (rest : List Client) → Without l (l ∷ rest) rest
  there :
      (m : Client) (live rest : List Client) → Without l live rest → Without l (m ∷ live) (m ∷ rest)

-- The counters count the open connections.
unfoldable pub Counts : Counters → List Client → Type 0
Counts c live =
    (c.clients ≡ pos (length live))
    × (c.black_clients ≡ pos (blacks live))
    × ((a : Bytes) → c.per_source a ≡ sources a live)

pub Without-length :
    (l : Client) (live rest : List Client) → Without l live rest → length live ≡ suc (length rest)
Without-length l _ _ (here rest) = refl
Without-length l _ _ (there m live rest w) = ap suc (Without-length l live rest w)

pub Without-blacks :
    (l : Client) (live rest : List Client)
    → Without l live rest
    → blacks live ≡ one_if l.is_black + blacks rest
unfolding blacks
Without-blacks l _ _ (here rest) = refl
Without-blacks l _ _ (there m live rest w) = omega (arith, Without-blacks l live rest w)

pub Without-sources :
    (a : Bytes) (l : Client) (live rest : List Client)
    → Without l live rest
    → sources a live ≡ one_if (from_source a l.src) + sources a rest
unfolding sources
Without-sources a l _ _ (here rest) = refl
Without-sources a l _ _ (there m live rest w) = omega (arith, Without-sources a l live rest w)

-- A map at the key itself and elsewhere.
at_key : (a src : Bytes) (m : Bytes → ℕ) → bytes_eq a src ≡ true → m a ≡ m src
at_key a src m e = ap m ((bytes_eq_iff a src).0 e)

set_source_at :
    (a src : Bytes) (m : Bytes → ℕ) (n : ℕ)
    → set_source src n m a ≡ (if bytes_eq a src then n else m a)
set_source_at a src m n = refl

added :
    (a src : Bytes) (m : Bytes → ℕ) → set_source src (m src + 1) m a ≡ one_if (bytes_eq a src) + m a
added a src m = let same = at_key a src m in ground (arith, same)

dropped_last :
    (a src : Bytes) (m : Bytes → ℕ) (n : ℕ)
    → leb (m src) 1 ≡ true
    → m a ≡ one_if (bytes_eq a src) + n
    → set_source src 0 m a ≡ n
dropped_last a src m n last h = let same = at_key a src m in ground (arith, same)

dropped_one :
    (a src : Bytes) (m : Bytes → ℕ) (n : ℕ)
    → leb (m src) 1 ≡ false
    → m a ≡ one_if (bytes_eq a src) + n
    → set_source src (m src - 1) m a ≡ n
dropped_one a src m n more h = let same = at_key a src m in ground (arith, same)

data Reads (a : Bytes) (n : ℕ) (m : Bytes → ℕ) : Type 0 where
  reads : m a ≡ n → Reads a n m

Reads-eq : (a : Bytes) (n : ℕ) (m : Bytes → ℕ) → Reads a n m → m a ≡ n
Reads-eq a n m (reads e) = e

pub add_source_at :
    (a : Bytes) (src : Addr) (m : Bytes → ℕ) → add_source src m a ≡ one_if (from_source a src) + m a
unfolding add_source
add_source_at a src m = by_validity (is_valid src)
  where
    by_validity :
        (v : Bool)
        → (if v then set_source src.octets (m src.octets + 1) m else m) a
          ≡ one_if (v && bytes_eq a src.octets) + m a
    by_validity true = added a src.octets m
    by_validity false = omega arith

pub drop_source_at :
    (a : Bytes) (src : Addr) (m : Bytes → ℕ) (n : ℕ)
    → m a ≡ one_if (from_source a src) + n
    → drop_source src m a ≡ n
unfolding drop_source
drop_source_at a src m n h = by_validity (is_valid src) h
  where
    by_validity :
        (v : Bool)
        → m a ≡ one_if (v && bytes_eq a src.octets) + n
        → (if v
              then (if leb (m src.octets) 1
                  then set_source src.octets 0 m
                  else set_source src.octets (m src.octets - 1) m)
              else m)
            a
          ≡ n
    by_validity true e =
        Reads-eq a n
          (if leb (m src.octets) 1
            then set_source src.octets 0 m
            else set_source src.octets (m src.octets - 1) m)
          (if_rule (Reads a n) (leb (m src.octets) 1)
            (λ last. reads (dropped_last a src.octets m n last e))
            λ more. reads (dropped_one a src.octets m n more e))
    by_validity false e = omega arith
