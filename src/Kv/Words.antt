-- ===== src/Kv/Words.antt =====
-- Reading back a big-endian word.
use native.Mathlib.Nat.{pow-suc, div-add-mod, mul_comm, div-div-eq-div-mul, mod-eq_of_lt}
use greyd_v.Base.{ℕ, zero, suc, ◌+◌, ◌*◌, ◌/◌, ◌%◌, ◌^◌, ◌<◌, ◌≡◌, refl, arith, length, ap, ◌∙◌}
use greyd_v.Kv.{put_be, get_be_from, get_be}

pub length-put_be : (n w : ℕ) → length (put_be n w) ≡ n
unfolding put_be
length-put_be zero w = refl
length-put_be (suc n) w = ap suc (length-put_be n w)

digit_step :
    (acc w m : ℕ) → 0 < m → (acc * 256 + w / m % 256) * m + w % m ≡ acc * (256 * m) + w % (256 * m)
digit_step acc w m h =
    let q = w / m in
    let a = q / 256 in
    omega (
      arith,
      div-add-mod w m,
      ap (λ (t : ℕ). t * m) (div-add-mod q 256),
      ap (λ (t : ℕ). 256 * m * t) (div-div-eq-div-mul w m 256),
      ap (λ (t : ℕ). t * (w / (256 * m))) (mul_comm 256 m),
      ap (λ (t : ℕ). 256 * m * (w / t)) (mul_comm 256 m),
      div-add-mod w (256 * m),
    )

pow_pos : (n : ℕ) → 0 < 256 ^ n
pow_pos zero = omega arith
pow_pos (suc n) = omega (arith, pow-suc 256 n, pow_pos n)

get_be_from-put_be : (n acc w : ℕ) → get_be_from acc (put_be n w) ≡ acc * 256 ^ n + w % 256 ^ n
unfolding get_be_from put_be
get_be_from-put_be zero acc w = omega arith
get_be_from-put_be (suc n) acc w =
    get_be_from-put_be n (acc * 256 + w / 256 ^ n % 256) w
    ∙ digit_step acc w (256 ^ n) (pow_pos n)
    ∙ rw (pow-suc, mul_comm (256 ^ n) 256)

pub get_be-put_be : (n w : ℕ) → w < 256 ^ n → get_be (put_be n w) ≡ w
unfolding get_be
get_be-put_be n w h = get_be_from-put_be n 0 w ∙ omega (arith, mod-eq_of_lt h)
