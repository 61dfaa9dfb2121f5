-- ===== src/Smtp/Counters/Kept.antt =====
-- The counters of internal/smtp/conn.go keep counting the open connections.
use greyd_v.Base.{
  ℕ, suc, ◌+◌, ◌==◌, if◌then◌else◌, if_rule, bytes_eq, bytes_eq_iff, Bool, true, false, not, ◌&&◌,
  length, List, ◌∷◌, ◌≡◌, refl, arith, ap, sym, ◌∙◌,
}
use greyd_v.Base.Int.{ℤ, pos}
use greyd_v.Ip.{Addr}
use greyd_v.Smtp.Counters.{
  Counters, drop_source, count_refused, is_full, is_source_full, admit, reserve, mark_black,
  unmark_black, reassign_source, remove, up, down,
}
use greyd_v.Smtp.Counters.Live.{
  Client, one_if, from_source, blacks, sources, Without, Counts, Without-length, Without-blacks,
  Without-sources, add_source_at, drop_source_at,
}

-- What happens to the counters and to the open connections.
pub data Step : Counters → List Client → Counters → List Client → Type 0 where
  admitted :
      (c d : Counters) (live : List Client) (src : Addr)
      → reserve src c ≡ (true, d)
      → Step c live d (record { src = src; is_black = false } ∷ live)
  refused :
      (c d : Counters) (live : List Client) (src : Addr)
      → reserve src c ≡ (false, d)
      → Step c live d live
  marked :
      (c : Counters) (live rest : List Client) (src : Addr)
      → Without (record { src = src; is_black = false }) live rest
      → Step c live (mark_black c).1 (record { src = src; is_black = true } ∷ rest)
  unmarked :
      (c : Counters) (live rest : List Client) (src : Addr)
      → Without (record { src = src; is_black = true }) live rest
      → Step c live (unmark_black c) (record { src = src; is_black = false } ∷ rest)
  reassigned :
      (c : Counters) (live rest : List Client) (old new : Addr) (black : Bool)
      → Without (record { src = old; is_black = black }) live rest
      → Step c live (reassign_source old new c) (record { src = new; is_black = black } ∷ rest)
  closed :
      (c : Counters) (live rest : List Client) (src : Addr) (black : Bool)
      → Without (record { src = src; is_black = black }) live rest
      → Step c live (remove src black c) rest

-- `reserve` admits, or only counts a refusal.
Reserved : Addr → Counters → Bool × Counters → Type 0
Reserved src c r =
    (r.0 ≡ true → r.1 ≡ admit src c)
    × (r.0 ≡ false
        → (r.1.clients ≡ c.clients)
          × ((r.1.black_clients ≡ c.black_clients) × (r.1.per_source ≡ c.per_source)))

reserve-Reserved : (src : Addr) (c : Counters) → Reserved src c (reserve src c)
unfolding reserve count_refused Reserved
reserve-Reserved src c =
    if_rule (Reserved src c) (is_full c) (λ full. ((λ e. ground arith), λ e. (refl, (refl, refl))))
      λ room.
        if_rule (Reserved src c) (is_source_full src c)
          (λ full. ((λ e. ground arith), λ e. (refl, (refl, refl))))
          λ free. ((λ e. refl), λ e. ground arith)

plus_zero : (n : ℕ) → n ≡ 0 + n
plus_zero n = omega arith

down_if :
    (b : Bool) (x : ℤ) (n r : ℕ) → x ≡ pos n → n ≡ one_if b + r → (if b then down x else x) ≡ pos r
down_if true x n r e h = let same : n ≡ suc r = omega arith in ap down (e ∙ ap pos same)
down_if false x n r e h = let same : n ≡ r = omega arith in e ∙ ap pos same

up_black : (x : ℤ) (n r : ℕ) → x ≡ pos n → n ≡ 0 + r → up x ≡ pos (1 + r)
up_black x n r e h = let same : suc n ≡ 1 + r = omega arith in ap up e ∙ ap pos same

module _ (c : Counters) (live : List Client) (ok : Counts c live) where
  Counts-admit : (src : Addr) → Counts (admit src c) (record { src = src; is_black = false } ∷ live)
  unfolding Counts admit blacks sources
  Counts-admit src = (
    ap up ok.0,
    ok.1 ∙ ap pos (plus_zero (blacks live)),
    λ a. add_source_at a src c.per_source ∙ ap (λ n. one_if (from_source a src) + n) (ok.2 a),
  )

  Counts-mark_black :
      (rest : List Client) (src : Addr)
      → Without (record { src = src; is_black = false }) live rest
      → Counts (mark_black c).1 (record { src = src; is_black = true } ∷ rest)
  unfolding Counts mark_black blacks sources
  Counts-mark_black rest src w =
      let l : Client = record { src = src; is_black = false } in
      (
        ok.0 ∙ ap pos (Without-length l live rest w),
        up_black c.black_clients (blacks live) (blacks rest) ok.1 (Without-blacks l live rest w),
        λ a. ok.2 a ∙ Without-sources a l live rest w,
      )

  Counts-unmark_black :
      (rest : List Client) (src : Addr)
      → Without (record { src = src; is_black = true }) live rest
      → Counts (unmark_black c) (record { src = src; is_black = false } ∷ rest)
  unfolding Counts unmark_black blacks sources
  Counts-unmark_black rest src w =
      let l : Client = record { src = src; is_black = true } in
      (
        ok.0 ∙ ap pos (Without-length l live rest w),
        down_if true c.black_clients (blacks live) (blacks rest) ok.1 (Without-blacks l live rest w)
            ∙ ap pos (plus_zero (blacks rest)),
        λ a. ok.2 a ∙ Without-sources a l live rest w,
      )

  Counts-remove :
      (rest : List Client) (src : Addr) (black : Bool)
      → Without (record { src = src; is_black = black }) live rest
      → Counts (remove src black c) rest
  unfolding Counts remove
  Counts-remove rest src black w =
      let l : Client = record { src = src; is_black = black } in
      (
        ap down (ok.0 ∙ ap pos (Without-length l live rest w)),
        down_if black c.black_clients (blacks live) (blacks rest) ok.1
            (Without-blacks l live rest w),
        λ a.
            drop_source_at a src c.per_source (sources a rest)
              (ok.2 a ∙ Without-sources a l live rest w),
      )

  Counts-reassign_source :
      (rest : List Client) (old new : Addr) (black : Bool)
      → Without (record { src = old; is_black = black }) live rest
      → Counts (reassign_source old new c) (record { src = new; is_black = black } ∷ rest)
  unfolding Counts reassign_source blacks sources
  Counts-reassign_source rest old new black w =
      let l : Client = record { src = old; is_black = black } in
      let length_kept = ok.0 ∙ ap pos (Without-length l live rest w) in
      let blacks_kept = ok.1 ∙ ap pos (Without-blacks l live rest w) in
      if_rule After (bytes_eq old.octets new.octets)
        (λ same. (
          length_kept,
          blacks_kept,
          λ a.
              ok.2 a
              ∙ (Without-sources a l live rest w
                  ∙ ap (λ s. one_if (not (length s == 0) && bytes_eq a s) + sources a rest)
                      ((bytes_eq_iff old.octets new.octets).0 same)),
        ))
        λ moved. (
          length_kept,
          blacks_kept,
          λ a.
              add_source_at a new (drop_source old c.per_source)
              ∙ ap (λ n. one_if (from_source a new) + n)
                  (drop_source_at a old c.per_source (sources a rest)
                    (ok.2 a ∙ Without-sources a l live rest w)),
        )
    where
      After : Counters → Type 0
      After d = Counts d (record { src = new; is_black = black } ∷ rest)

Counts-same :
    (c d : Counters) (live : List Client)
    → d.clients ≡ c.clients
    → d.black_clients ≡ c.black_clients
    → d.per_source ≡ c.per_source
    → Counts c live
    → Counts d live
unfolding Counts
Counts-same c d live e f g ok = (e ∙ ok.0, f ∙ ok.1, λ a. ap (λ m. m a) g ∙ ok.2 a)

pub reserve-admit : (src : Addr) (c d : Counters) → reserve src c ≡ (true, d) → d ≡ admit src c
unfolding Reserved
reserve-admit src c d e = sym (ap (λ r. r.1) e) ∙ (reserve-Reserved src c).0 (ap (λ r. r.0) e)

Counts-reserve :
    (src : Addr) (c d : Counters) (live : List Client)
    → Counts c live
    → reserve src c ≡ (false, d)
    → Counts d live
unfolding Reserved
Counts-reserve src c d live ok e =
    let kept = (reserve-Reserved src c).1 (ap (λ r. r.0) e) in
    let result = ap (λ r. r.1) e in
    Counts-same c d live (sym (ap (λ x. x.clients) result) ∙ kept.0)
      (sym (ap (λ x. x.black_clients) result) ∙ kept.1.0)
      (sym (ap (λ x. x.per_source) result) ∙ kept.1.1) ok

-- Whatever happens to a connection - it is admitted or refused, marked as blacklisted or no longer so,
-- moved to the
-- source that a proxy names, or closed - the counters keep counting the open connections: all of
-- them, those marked, and those of each source.
pub Step-Counts :
    (c d : Counters) (live after : List Client)
    → Counts c live
    → Step c live d after
    → Counts d after
Step-Counts c d live _ ok (admitted _ _ _ src e) =
    let result = reserve-admit src c d e in
    Counts-same (admit src c) d (record { src = src; is_black = false } ∷ live)
      (ap (λ x. x.clients) result) (ap (λ x. x.black_clients) result)
      (ap (λ x. x.per_source) result) (Counts-admit c live ok src)
Step-Counts c d live _ ok (refused _ _ _ src e) = Counts-reserve src c d live ok e
Step-Counts c _ live _ ok (marked _ _ rest src w) = Counts-mark_black c live ok rest src w
Step-Counts c _ live _ ok (unmarked _ _ rest src w) = Counts-unmark_black c live ok rest src w
Step-Counts c _ live _ ok (reassigned _ _ rest old new black w) =
    Counts-reassign_source c live ok rest old new black w
Step-Counts c _ live _ ok (closed _ _ rest src black w) = Counts-remove c live ok rest src black w
