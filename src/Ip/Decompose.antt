-- ===== src/Ip/Decompose.antt =====
-- `RangeToCIDRs` of internal/ip/ip.go: its loop ends, within as many rounds as there are addresses
-- from the start on.
use native.Mathlib.Numerals.{unary_clauses}
use greyd_v.Base.{
  ℕ, zero, suc, ◌+◌, ◌-◌, ◌%◌, ◌^◌, ◌*◌, if_rule, ◌≤◌, ◌<◌, ltb, leb, not, false, List, [], ◌∷◌,
  Option, some, ◌≡◌, refl, arith, ap,
}
use greyd_v.Ip.{
  u32, shl_one, sub_bits, masked, max_diff_from, max_diff, max_block, block_bits,
  range_to_cidrs_fuel, range_to_cidrs, networks, cons_cidr, Cidr,
}

max_diff_from-bounds :
    (left bits a b : ℕ)
    → 1 ≤ bits
    → bits + left ≤ 33
    → (1 ≤ max_diff_from left bits a b) × (max_diff_from left bits a b ≤ 32)
unfolding max_diff_from
max_diff_from-bounds zero bits a b l h = (omega arith, omega arith)
max_diff_from-bounds (suc left) bits a b l h =
    let later = max_diff_from-bounds left (bits + 1) a b (omega arith) (omega arith) in
    ground (arith, later)

max_diff-bounds : (a b : ℕ) → (1 ≤ max_diff a b) × (max_diff a b ≤ 32)
unfolding max_diff max_diff_from masked
max_diff-bounds a b = max_diff_from-bounds 31 1 a ((b + 1) % u32) (omega arith) (omega arith)

max_block-le : (addr n : ℕ) → max_block addr n ≤ n
unfolding max_block
max_block-le addr zero = omega arith
max_block-le addr (suc n) = let later = max_block-le addr n in ground (arith, later)

pub block_bits-bounds : (a b : ℕ) → (1 ≤ block_bits a b) × (block_bits a b ≤ 32)
unfolding block_bits
block_bits-bounds a b =
    let d = max_diff-bounds a b in let m = max_block-le a 32 in ground (arith, d, m)

power_suc : (n : ℕ) → 2 ^ suc n ≡ 2 ^ n * 2
power_suc n = simp unary_clauses

power_pos : (n : ℕ) → 1 ≤ 2 ^ n
power_pos zero = omega arith
power_pos (suc n) = let small = power_pos n in let doubled = power_suc n in omega arith

power_le : (n d : ℕ) → 2 ^ n ≤ 2 ^ (d + n)
power_le n zero =
    let plain : n ≡ 0 + n = omega arith in
    let same : 2 ^ n ≡ 2 ^ (0 + n) = ap (λ k. 2 ^ k) plain in omega arith
power_le n (suc d) =
    let small = power_le n d in
    let doubled = power_suc (d + n) in
    let plain : suc (d + n) ≡ suc d + n = omega arith in
    let same : 2 ^ suc (d + n) ≡ 2 ^ (suc d + n) = ap (λ k. 2 ^ k) plain in omega arith

power_mono : (n m d : ℕ) → d + n ≡ m → 2 ^ n ≤ 2 ^ m
power_mono n m d e =
    let below = power_le n d in let same : 2 ^ (d + n) ≡ 2 ^ m = ap (λ k. 2 ^ k) e in omega arith

small_step : (n : ℕ) → n ≤ 31 → 1 ≤ shl_one n
small_step n h =
    let one = power_pos n in
    let bound : 2 ^ n ≤ 2 ^ 31 = power_mono n 31 (31 - n) (omega arith) in omega arith

step-pos : (bits : ℕ) → 1 ≤ bits → bits ≤ 32 → 1 ≤ shl_one (sub_bits bits)
step-pos bits l h = small_step (sub_bits bits) (omega arith)

-- The loop's result is a list.
data Ends (o : Option (List Cidr)) : Type 0 where
  ends_at : (cs : List Cidr) → o ≡ some cs → Ends o

cons_cidr-Ends : (c : Cidr) (o : Option (List Cidr)) → Ends o → Ends (cons_cidr c o)
unfolding cons_cidr
cons_cidr-Ends c o (ends_at cs e) = ends_at (c ∷ cs) (ap (cons_cidr c) e)

moves_on :
    (start step : ℕ)
    → start < u32
    → 1 ≤ step
    → ltb ((start + step) % u32) start ≡ false
    → step < u32
    → start < (start + step) % u32
moves_on start step s one on small = ground arith

-- The loop ends with one round more than the addresses from `start` to 2 ^ 32.
range_to_cidrs_fuel-Ends :
    (fuel start end : ℕ)
    → start < u32
    → u32 < fuel + start
    → Ends (range_to_cidrs_fuel fuel start end)
unfolding range_to_cidrs_fuel
range_to_cidrs_fuel-Ends zero start end s h = absurd (omega arith)
range_to_cidrs_fuel-Ends (suc fuel) start end s h =
    if_rule Ends (not (leb start end)) (λ past. ends_at [] refl)
      λ inside.
        if_rule Ends (ltb next start) (λ wrapped. ends_at (block ∷ []) refl)
          λ on.
            let bounds = block_bits-bounds start end in
            let forward =
              moves_on start step s (step-pos (block_bits start end) bounds.0 bounds.1) on
                (omega arith) in
            cons_cidr-Ends block (range_to_cidrs_fuel fuel next end)
              (range_to_cidrs_fuel-Ends fuel next end (omega arith) (omega arith))
  where
    step : ℕ
    step = shl_one (sub_bits (block_bits start end))

    next : ℕ
    next = (start + step) % u32

    block : Cidr
    block = record { addr = start; bits = block_bits start end }

Ends-some : (o : Option (List Cidr)) → Ends o → o ≡ some (networks o)
Ends-some o (ends_at cs e) = rw e refl

-- For every start below 2 ^ 32 the loop returns, and its result is the list of networks.
pub range_to_cidrs-total :
    (start end : ℕ)
    → start < u32
    → range_to_cidrs_fuel (suc u32) start end ≡ some (range_to_cidrs start end)
unfolding range_to_cidrs
range_to_cidrs-total start end s =
    Ends-some (range_to_cidrs_fuel (suc u32) start end)
      (range_to_cidrs_fuel-Ends (suc u32) start end s (omega arith))
