-- ===== src/Smtp/Bytewise.antt =====
-- The parts that the text helpers of internal/smtp/state.go and internal/core/tuple.go take of a text.
use greyd_v.Base.{
  ℕ, zero, suc, ◌+◌, ◌-◌, ◌==◌, Bytes, if_rule, not, ltb, List, [], ◌∷◌, Option, none, some, All,
  length, drop,
}
use greyd_v.Core.{is_stripped, to_lower, normalize_from, normalize_email}
use greyd_v.Kv.{cut, cons_first}
use greyd_v.Ipc.Frame.{trim_right, trimmed_cons, is_line_end}
use greyd_v.Smtp.Text.{
  space_width, flush, words_from, fields, leading, first_field, get_helo, after_colon, get_addr,
}

-- What holds of every byte of a text holds of every byte of its parts.
module _ {ℓ} (P : ℕ → Type ℓ) where
  trimmed_cons-All : (c : ℕ) (t : Bytes) → P c → All P t → All P (trimmed_cons c t)
  trimmed_cons-All c [] p h = if_rule (All P) (is_line_end c) (λ ends. tt) λ stays. (p, tt)
  trimmed_cons-All c (d ∷ ds) p h = (p, h)

  pub trim_right-All : (s : Bytes) → All P s → All P (trim_right s)
  unfolding trim_right
  trim_right-All [] h = tt
  trim_right-All (c ∷ cs) h = trimmed_cons-All c (trim_right cs) h.0 (trim_right-All cs h.1)

  flush-All : (r : Bytes × List Bytes) → All P r.0 → All (All P) r.1 → All (All P) (flush r)
  flush-All ([], later) h k = k
  flush-All (c ∷ cs, later) h k = (h, k)

  words_from-All :
      (n : ℕ) (cs : Bytes) → All P cs → All P (words_from n cs).0 × All (All P) (words_from n cs).1
  unfolding words_from
  words_from-All n [] h = (tt, tt)
  words_from-All (suc n) (c ∷ cs) h = words_from-All n cs h.1
  words_from-All zero (c ∷ cs) h =
      let rest = words_from-All (space_width (c ∷ cs) - 1) cs h.1 in
      if_rule (λ (r : Bytes × List Bytes). All P r.0 × All (All P) r.1) (space_width (c ∷ cs) == 0)
        (λ inside. ((h.0, rest.0), rest.1))
        λ space. (tt, flush-All (words_from (space_width (c ∷ cs) - 1) cs) rest.0 rest.1)

  leading-All : (ws : List Bytes) → All (All P) ws → All P (leading ws)
  leading-All [] h = tt
  leading-All (w ∷ ws) h = h.0

  first_field-All : (s : Bytes) → All P s → All P (first_field s)
  unfolding first_field fields
  first_field-All s h =
      let both = words_from-All 0 s h in
      leading-All (fields s) (flush-All (words_from 0 s) both.0 both.1)

  drop-All : (n : ℕ) (s : Bytes) → All P s → All P (drop n s)
  drop-All zero s h = h
  drop-All (suc n) [] h = tt
  drop-All (suc n) (c ∷ cs) h = drop-All n cs h.1

  pub get_helo-All : (s : Bytes) → All P s → All P (get_helo s)
  unfolding get_helo
  get_helo-All s h =
      if_rule (All P) (ltb (length s) 4) (λ short. tt)
        λ long. first_field-All (drop 4 s) (drop-All 4 s h)

  AfterCut : Option (Bytes × Bytes) → Type ℓ
  AfterCut none = Unit {ℓ}
  AfterCut (some (a, r)) = All P r

  cons_first-AfterCut :
      (c : ℕ) (o : Option (Bytes × Bytes)) → AfterCut o → AfterCut (cons_first c o)
  unfolding AfterCut cons_first
  cons_first-AfterCut c none h = tt
  cons_first-AfterCut c (some (a, r)) h = h

  cut-AfterCut : (sep : ℕ) (s : Bytes) → All P s → AfterCut (cut sep s)
  unfolding AfterCut cut
  cut-AfterCut sep [] h = tt
  cut-AfterCut sep (c ∷ cs) h =
      if_rule AfterCut (c == sep) (λ found. h.1)
        λ other. cons_first-AfterCut c (cut sep cs) (cut-AfterCut sep cs h.1)

  after_colon-All : (o : Option (Bytes × Bytes)) → AfterCut o → All P (after_colon o)
  unfolding after_colon AfterCut
  after_colon-All none h = tt
  after_colon-All (some (a, r)) h = first_field-All r h

  pub get_addr-All : (s : Bytes) → All P s → All P (get_addr s)
  unfolding get_addr
  get_addr-All s h = after_colon-All (cut b':' s) (cut-AfterCut b':' s h)

  module _ (low : (c : ℕ) → P c → P (to_lower c)) where
    normalize_from-All : (n : ℕ) (cs : Bytes) → All P cs → All P (normalize_from n cs)
    unfolding normalize_from
    normalize_from-All n [] h = tt
    normalize_from-All n (c ∷ cs) h =
        if_rule (All P) (not (ltb n 1023)) (λ full. tt)
          λ room.
            if_rule (All P) (is_stripped c) (λ skip. normalize_from-All n cs h.1)
              λ keep. (low c h.0, normalize_from-All (n + 1) cs h.1)

    pub normalize_email-All : (cs : Bytes) → All P cs → All P (normalize_email cs)
    unfolding normalize_email
    normalize_email-All cs h = normalize_from-All 0 cs h
