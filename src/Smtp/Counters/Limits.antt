-- ===== src/Smtp/Counters/Limits.antt =====
-- The limits on connections that `reserve` of internal/smtp/conn.go keeps.
use greyd_v.Base.{ℕ, suc, ◌≤◌, ltb, leb, Bool, true, false, ◌&&◌, ◌≡◌, ap, ◌∙◌, arith, if_rule}
use greyd_v.Base.Int.{ℤ, pos}
use greyd_v.Ip.{Addr}
use greyd_v.Smtp.Counters.{Counters, reserve, admit, is_full, is_source_full, reaches, up}
use greyd_v.Smtp.Counters.Kept.{reserve-admit}

-- Where a reservation succeeds, neither limit was reached.
Roomy : Addr → Counters → Bool × Counters → Type 0
Roomy src c r = r.0 ≡ true → (is_full c ≡ false) × (is_source_full src c ≡ false)

reserve-Roomy : (src : Addr) (c : Counters) → Roomy src c (reserve src c)
unfolding reserve Roomy
reserve-Roomy src c =
    if_rule (Roomy src c) (is_full c) (λ full e. ground arith)
      λ room.
        if_rule (Roomy src c) (is_source_full src c) (λ full e. ground arith) λ free e. (room, free)

below : (x : ℤ) (n m : ℕ) → x ≡ pos n → 1 ≤ m → (ltb 0 m && reaches x m) ≡ false → suc n ≤ m
below x n m e one h = let at_n : (ltb 0 m && leb m n) ≡ false = rw e at h in room n m one at_n
  where
    room : (k l : ℕ) → 1 ≤ l → (ltb 0 l && leb l k) ≡ false → suc k ≤ l
    room k l one h = ground arith

-- With `n` connections open and a limit set, a connection that is admitted is counted, and the
-- count is within the limit.
pub reserve-le :
    (src : Addr) (c d : Counters) (n : ℕ)
    → c.clients ≡ pos n
    → 1 ≤ c.max_cons
    → reserve src c ≡ (true, d)
    → (d.clients ≡ pos (suc n)) × (suc n ≤ c.max_cons)
unfolding admit Roomy is_full
reserve-le src c d n open_ one e =
    let room = reserve-Roomy src c (ap (λ r. r.0) e) in
    (
      ap (λ x. x.clients) (reserve-admit src c d e) ∙ ap up open_,
      below c.clients n c.max_cons open_ one room.0,
    )
