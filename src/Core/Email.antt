-- ===== src/Core/Email.antt =====
-- What `NormalizeEmail` (internal/core/tuple.go) promises of its result.
use greyd_v.Base.{ℕ, ◌+◌, ◌≤◌, Bytes, false, [], ◌∷◌, ◌≡◌, refl, arith, length, All}
use greyd_v.Core.{is_stripped, is_upper, to_lower, normalize_from, normalize_email}

-- Neither stripped nor an upper case letter.
abbrev pub IsNormal : ℕ → Type 0
IsNormal c = (is_stripped c ≡ false) × (is_upper c ≡ false)

to_lower-IsNormal : (c : ℕ) → is_stripped c ≡ false → IsNormal (to_lower c)
unfolding to_lower
to_lower-IsNormal c h = ground arith

to_lower_self : (c : ℕ) → IsNormal c → to_lower c ≡ c
unfolding to_lower
to_lower_self c h = ground arith

normalize_from-IsNormal : (n : ℕ) (cs : Bytes) → All IsNormal (normalize_from n cs)
unfolding normalize_from
normalize_from-IsNormal n [] = tt
normalize_from-IsNormal n (c ∷ cs) =
    ground
      (arith, to_lower-IsNormal c, normalize_from-IsNormal n cs, normalize_from-IsNormal (n + 1) cs)

normalize_from-length : (n : ℕ) (cs : Bytes) → n ≤ 1023 → n + length (normalize_from n cs) ≤ 1023
unfolding normalize_from
normalize_from-length n [] h = omega arith
normalize_from-length n (c ∷ cs) h =
    ground (arith, normalize_from-length n cs, normalize_from-length (n + 1) cs)

normalize_from_self :
    (n : ℕ) (cs : Bytes) → All IsNormal cs → n + length cs ≤ 1023 → normalize_from n cs ≡ cs
unfolding normalize_from
normalize_from_self n [] h l = refl
normalize_from_self n (c ∷ cs) h l =
    ground (arith, to_lower_self c h.0, normalize_from_self (n + 1) cs h.1)

-- The normalised address is at most 1023 bytes long, holds no backslash, quote, angle bracket or
-- upper case letter, and normalising it again changes nothing.
pub normalize_email-IsNormal :
    (addr : Bytes)
    → (length (normalize_email addr) ≤ 1023)
      × All IsNormal (normalize_email addr)
      × (normalize_email (normalize_email addr) ≡ normalize_email addr)
unfolding normalize_email
normalize_email-IsNormal addr =
    let normal = normalize_from-IsNormal 0 addr in
    let short : 0 + length (normalize_from 0 addr) ≤ 1023 =
      normalize_from-length 0 addr (omega arith) in
    (omega arith, normal, normalize_from_self 0 (normalize_from 0 addr) normal short)
