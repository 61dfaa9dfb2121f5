-- ===== src/Sync/Engine/Replay.antt =====
-- The replay window of internal/sync/engine.go.
use greyd_v.Base.{
  ℕ, zero, suc, ◌+◌, ◌-◌, ◌≤◌, ◌<◌, ◌≡◌, ◌∙◌, ap, refl, arith, if◌then◌else◌, if_rule, Bool, true,
  false, not, ltb, leb, List, [], ◌∷◌, ◌++◌, length, length-append, length-replicate, take,
  replicate, get_or,
}
use greyd_v.Sync.Engine.{
  Window, accept, is_restart, set_bit, shift_left, start_at, move_to, no_bits,
}

get_or-set_bit :
    (k : ℕ) (bits : List Bool) → k < length bits → get_or (set_bit k bits) k false ≡ true
unfolding set_bit
get_or-set_bit k [] h = absurd (omega arith)
get_or-set_bit zero (b ∷ bs) h = refl
get_or-set_bit (suc k) (b ∷ bs) h = get_or-set_bit k bs (omega arith)

-- A bit that is set stays set.
set_bit-keeps :
    (j k : ℕ) (bits : List Bool)
    → get_or bits j false ≡ true
    → get_or (set_bit k bits) j false ≡ true
unfolding set_bit
set_bit-keeps j k [] h = h
set_bit-keeps zero zero (b ∷ bs) h = refl
set_bit-keeps (suc j) zero (b ∷ bs) h = h
set_bit-keeps zero (suc k) (b ∷ bs) h = h
set_bit-keeps (suc j) (suc k) (b ∷ bs) h = set_bit-keeps j k bs h

length-set_bit : (k : ℕ) (bits : List Bool) → length (set_bit k bits) ≡ length bits
unfolding set_bit
length-set_bit k [] = refl
length-set_bit zero (b ∷ bs) = refl
length-set_bit (suc k) (b ∷ bs) = ap suc (length-set_bit k bs)

get_or-take :
    (j n : ℕ) (bits : List Bool) → j < n → get_or (take n bits) j false ≡ get_or bits j false
get_or-take j zero bits h = absurd (omega arith)
get_or-take j (suc n) [] h = refl
get_or-take zero (suc n) (b ∷ bs) h = refl
get_or-take (suc j) (suc n) (b ∷ bs) h = get_or-take j n bs (omega arith)

get_or-replicate :
    (n i j : ℕ) (bits : List Bool)
    → i ≡ n + j
    → get_or bits j false ≡ true
    → get_or (replicate n false ++ bits) i false ≡ true
get_or-replicate zero i j bits at h = let same : i ≡ j = omega arith in rw same h
get_or-replicate (suc n) zero j bits at h = absurd (omega arith)
get_or-replicate (suc n) (suc i) j bits at h = get_or-replicate n i j bits (omega arith) h

-- A counter that was accepted since the last start: a set bit, or one that has left the bitmap.
pub record Marked (counter : ℕ) (w : Window) : Type 0 where
  pub is_seen : w.seen ≡ true
  pub le : counter ≤ w.hi
  pub long : length w.bits ≡ 64
  pub bit : w.hi - counter < 64 → get_or w.bits (w.hi - counter) false ≡ true

length-take : (n : ℕ) (bits : List Bool) → n ≤ length bits → length (take n bits) ≡ n
length-take zero bits h = refl
length-take (suc n) [] h = absurd (omega arith)
length-take (suc n) (b ∷ bits) h = ap suc (length-take n bits (omega arith))

length-shift_left : (n : ℕ) (bits : List Bool) → length bits ≡ 64 → length (shift_left n bits) ≡ 64
unfolding shift_left
length-shift_left n bits long =
    length-take 64 (replicate n false ++ bits)
      (omega (arith, length-append (replicate n false) bits, length-replicate n false))

start_at-Marked : (counter : ℕ) (w : Window) → Marked counter (start_at counter w)
unfolding set_bit
start_at-Marked counter w = record {
  is_seen = refl;
  le = omega arith;
  long = refl;
  bit = λ near. let same : counter - counter ≡ 0 = omega arith in rw same refl;
}

length-moved :
    (counter : ℕ) (w : Window) → length w.bits ≡ 64 → length (move_to counter w).bits ≡ 64
length-moved counter w long =
    length-set_bit 0
      (if leb 64 (counter - w.hi) then no_bits else shift_left (counter - w.hi) w.bits)
    ∙ if_rule (λ (b : List Bool). length b ≡ 64) (leb 64 (counter - w.hi)) (λ far. refl)
        λ near. length-shift_left (counter - w.hi) w.bits long

move_to-Marked :
    (counter : ℕ) (w : Window)
    → w.seen ≡ true
    → length w.bits ≡ 64
    → Marked counter (move_to counter w)
move_to-Marked counter w seen long = record {
  is_seen = seen;
  le = omega arith;
  long = length-moved counter w long;
  bit = λ near.
      let same : counter - counter ≡ 0 = omega arith in
      let bits = if leb 64 (counter - w.hi) then no_bits else shift_left (counter - w.hi) w.bits in
      let whole = length-moved counter w long in
      let kept = length-set_bit 0 bits in
      rw same (get_or-set_bit 0 bits (omega (arith, whole, kept)));
}

-- A mark moves up the bitmap with the highest counter.
Marked-move_to :
    (counter other : ℕ) (w : Window)
    → Marked counter w
    → w.hi < other
    → Marked counter (move_to other w)
unfolding shift_left
Marked-move_to counter other w m above = record {
  is_seen = m.is_seen;
  le = omega (arith, m.le);
  long = length-moved other w m.long;
  bit = λ near. set_bit-keeps (other - counter) 0 _ (
      if_rule (λ (b : List Bool). get_or b (other - counter) false ≡ true) (leb 64 (other - w.hi))
        (λ far. absurd (ground (arith, m.le, near, far)))
        λ close.
          get_or-take (other - counter) 64 (replicate (other - w.hi) false ++ w.bits) near
          ∙ get_or-replicate (other - w.hi) (other - counter) (w.hi - counter) w.bits
              (omega (arith, m.le)) (m.bit (omega (arith, m.le))));
}

set_bit-Marked :
    (counter : ℕ) (w : Window)
    → w.seen ≡ true
    → length w.bits ≡ 64
    → counter ≤ w.hi
    → Marked counter (record w { bits = set_bit (w.hi - counter) w.bits })
set_bit-Marked counter w seen long le = record {
  is_seen = seen;
  le = le;
  long = length-set_bit (w.hi - counter) w.bits ∙ long;
  bit = λ near. get_or-set_bit (w.hi - counter) w.bits (omega (arith, long, near));
}

Marked-set_bit :
    (counter k : ℕ) (w : Window)
    → Marked counter w
    → Marked counter (record w { bits = set_bit k w.bits })
Marked-set_bit counter k w m = record {
  is_seen = m.is_seen;
  le = m.le;
  long = length-set_bit k w.bits ∙ m.long;
  bit = λ near. set_bit-keeps (w.hi - counter) k w.bits (m.bit near);
}

module _ (size : ℕ) (fits : size ≤ 64) where
  -- A marked counter that is no restart is refused.
  Marked-refused :
      (counter : ℕ) (w : Window)
      → Marked counter w
      → is_restart size counter w ≡ false
      → (accept size counter w).0 ≡ false
  unfolding accept is_restart
  Marked-refused counter w m same =
      let seen = m.is_seen in
      let le = m.le in
      if_rule (λ (r : Bool × Window). r.0 ≡ false) (not w.seen) (λ new. absurd (ground arith))
        λ old.
          if_rule (λ (r : Bool × Window). r.0 ≡ false) (ltb w.hi counter)
            (λ later. absurd (ground arith))
            λ before.
              if_rule (λ (r : Bool × Window). r.0 ≡ false) (ltb (w.hi - counter) size)
                (λ inside.
                  if_rule (λ (r : Bool × Window). r.0 ≡ false)
                    (get_or w.bits (w.hi - counter) false) (λ set. refl)
                    λ clear.
                      let near : w.hi - counter < 64 = ground (arith, inside, fits) in
                      let set = m.bit near in absurd (cc (set, clear)))
                λ outside.
                  if_rule (λ (r : Bool × Window). r.0 ≡ false) (ltb counter size)
                    (λ small. absurd (ground (arith, same, seen, before, outside, small)))
                    λ large. refl

  -- An accepted counter is marked.
  accept-Marked :
      (counter : ℕ) (w : Window)
      → length w.bits ≡ 64
      → (accept size counter w).0 ≡ true
      → Marked counter (accept size counter w).1
  unfolding accept
  accept-Marked counter w long =
      if_rule (λ (r : Bool × Window). r.0 ≡ true → Marked counter r.1) (not w.seen)
        (λ new h. start_at-Marked counter w)
        λ old.
          if_rule (λ (r : Bool × Window). r.0 ≡ true → Marked counter r.1) (ltb w.hi counter)
            (λ later h. move_to-Marked counter w (ground (arith, old)) long)
            λ before.
              if_rule (λ (r : Bool × Window). r.0 ≡ true → Marked counter r.1)
                (ltb (w.hi - counter) size)
                (λ inside.
                  if_rule (λ (r : Bool × Window). r.0 ≡ true → Marked counter r.1)
                    (get_or w.bits (w.hi - counter) false) (λ set h. absurd (cc h))
                    λ clear h.
                      set_bit-Marked counter w (ground (arith, old)) long (ground (arith, before)))
                λ outside.
                  if_rule (λ (r : Bool × Window). r.0 ≡ true → Marked counter r.1)
                    (ltb counter size) (λ small h. start_at-Marked counter w)
                    λ large h. absurd (cc h)

  -- A mark stays, whatever comes but a restart.
  Marked-accept :
      (counter other : ℕ) (w : Window)
      → Marked counter w
      → is_restart size other w ≡ false
      → Marked counter (accept size other w).1
  unfolding accept is_restart
  Marked-accept counter other w m same =
      let seen = m.is_seen in
      if_rule (λ (r : Bool × Window). Marked counter r.1) (not w.seen)
        (λ new. absurd (ground (arith, seen, new)))
        λ old.
          if_rule (λ (r : Bool × Window). Marked counter r.1) (ltb w.hi other)
            (λ later. Marked-move_to counter other w m (ground (arith, later)))
            λ before.
              if_rule (λ (r : Bool × Window). Marked counter r.1) (ltb (w.hi - other) size)
                (λ inside.
                  if_rule (λ (r : Bool × Window). Marked counter r.1)
                    (get_or w.bits (w.hi - other) false) (λ set. m)
                    λ clear. Marked-set_bit counter (w.hi - other) w m)
                λ outside.
                  if_rule (λ (r : Bool × Window). Marked counter r.1) (ltb other size)
                    (λ small. absurd (ground (arith, same, seen, before, outside, small)))
                    λ large. m

  -- What is heard from a peer after a window, none of it taken for a restart.
  pub data Hears : Window → Window → Type 0 where
    silence : (w : Window) → Hears w w
    hears :
        (counter : ℕ) (w v : Window)
        → is_restart size counter w ≡ false
        → Hears (accept size counter w).1 v
        → Hears w v

  Marked-Hears : (counter : ℕ) (w v : Window) → Hears w v → Marked counter w → Marked counter v
  Marked-Hears counter w _ (silence _) m = m
  Marked-Hears counter w v (hears other _ _ same later) m =
      Marked-Hears counter _ v later (Marked-accept counter other w m same)

  -- A counter that was accepted is refused from then on, whatever else the peer is heard to send,
  -- in any order, as long as nothing since, the counter itself included, is taken for a restart. The
  -- window is 64 counters at most, and its bitmap has 64 bits.
  pub accept-replayed :
      (counter : ℕ) (w v : Window)
      → length w.bits ≡ 64
      → (accept size counter w).0 ≡ true
      → Hears (accept size counter w).1 v
      → is_restart size counter v ≡ false
      → (accept size counter v).0 ≡ false
  accept-replayed counter w v long accepted heard same =
      Marked-refused counter v
        (Marked-Hears counter (accept size counter w).1 v heard
          (accept-Marked counter w long accepted))
        same
