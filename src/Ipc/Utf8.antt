-- ===== src/Ipc/Utf8.antt =====
-- The bytes that `strings.Map` keeps in `Sanitize` (internal/ipc/writer.go): a byte that starts no
-- UTF-8 text of a character is replaced by the three bytes of U+FFFD.
use greyd_v.Base.{
  ℕ, zero, suc, ◌-◌, ◌==◌, ◌≡◌, refl, arith, Bytes, if_rule, if◌then◌else◌, Bool, false, ◌&&◌, leb,
  [], ◌∷◌, All, any,
}

abbrev within : ℕ → ℕ → ℕ → Bool
within low high c = leb low c && leb c high

-- How many bytes the character at the front has; 0 where the bytes are not valid.
unfoldable pub rune_width : Bytes → ℕ
rune_width [] = 0
rune_width (a ∷ []) = if leb a 127 then 1 else 0
rune_width (a ∷ b ∷ []) =
    if leb a 127 then 1 else if within 194 223 a && within 128 191 b then 2 else 0
rune_width (a ∷ b ∷ c ∷ []) =
    if leb a 127
    then 1
    else if within 194 223 a && within 128 191 b
    then 2
    else if within 224 239 a
        && (within (if a == 224 then 160 else 128) (if a == 237 then 159 else 191) b
            && within 128 191 c)
    then 3
    else 0
rune_width (a ∷ b ∷ c ∷ d ∷ rest) =
    if leb a 127
    then 1
    else if within 194 223 a && within 128 191 b
    then 2
    else if within 224 239 a
        && (within (if a == 224 then 160 else 128) (if a == 237 then 159 else 191) b
            && within 128 191 c)
    then 3
    else if within 240 244 a
        && (within (if a == 240 then 144 else 128) (if a == 244 then 143 else 191) b
            && (within 128 191 c && within 128 191 d))
    then 4
    else 0

-- The text with its invalid bytes replaced; the number counts the bytes left of the character that is
-- being copied.
unfoldable pub repaired_from : ℕ → Bytes → Bytes
unfolding rune_width
repaired_from n [] = []
repaired_from (suc n) (c ∷ cs) = c ∷ repaired_from n cs
repaired_from zero (c ∷ cs) =
    let width = rune_width (c ∷ cs) in
    let rest = repaired_from (width - 1) cs in
    if width == 0 then 239 ∷ 191 ∷ 189 ∷ rest else c ∷ rest

unfoldable pub repaired : Bytes → Bytes
repaired = repaired_from 0

-- The bytes that are not to be dropped.
unfoldable pub without : (ℕ → Bool) → Bytes → Bytes
without p [] = []
without p (c ∷ cs) = let rest = without p cs in if p c then rest else c ∷ rest

pub without_none : (p : ℕ → Bool) (v : Bytes) → All (λ c. p c ≡ false) (without p v)
unfolding without
without_none p [] = tt
without_none p (c ∷ cs) = let rest = without_none p cs in ground (arith, rest)

pub any_none : (p : ℕ → Bool) (v : Bytes) → any p v ≡ false → All (λ c. p c ≡ false) v
any_none p [] h = tt
any_none p (c ∷ cs) h = ground (arith, any_none p cs)

pub none_any : (p : ℕ → Bool) (v : Bytes) → All (λ c. p c ≡ false) v → any p v ≡ false
none_any p [] h = refl
none_any p (c ∷ cs) h = ground (arith, none_any p cs h.1, h.0)

pub without-All {ℓ} : (P : ℕ → Type ℓ) (p : ℕ → Bool) (v : Bytes) → All P v → All P (without p v)
unfolding without
without-All P p [] h = tt
without-All P p (c ∷ cs) h =
    let rest = without-All P p cs h.1 in if_rule (All P) (p c) (λ drop. rest) λ keep. (h.0, rest)

pub repaired_from-All {ℓ} :
    (P : ℕ → Type ℓ) (n : ℕ) (v : Bytes)
    → P 239
    → P 191
    → P 189
    → All P v
    → All P (repaired_from n v)
unfolding repaired_from
repaired_from-All P n [] x y z h = tt
repaired_from-All P (suc n) (c ∷ cs) x y z h = (h.0, repaired_from-All P n cs x y z h.1)
repaired_from-All P zero (c ∷ cs) x y z h =
    let rest = repaired_from-All P (rune_width (c ∷ cs) - 1) cs x y z h.1 in
    if_rule (All P) (rune_width (c ∷ cs) == 0) (λ invalid. (x, (y, (z, rest)))) λ valid. (h.0, rest)
