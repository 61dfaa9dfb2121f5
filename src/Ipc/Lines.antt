-- ===== src/Ipc/Lines.antt =====
-- Frames of whole lines: `NextRaw` of internal/ipc/frame.go.
use mathlib.Core.List.{append_assoc, append-nil}
use greyd_v.Base.{
  ℕ, suc, ◌+◌, ◌≤◌, ◌≢◌, ◌≡◌, ◌∙◌, ap, sym, refl, arith, if_rule, Bytes, bytes_eq, true, false,
  List, [], ◌∷◌, ◌++◌, codes, All, any, length, length-append, ◌==◌,
}
use greyd_v.Result.{ok}
use greyd_v.Ipc.Scan.{is_name_char}
use greyd_v.Ipc.Utf8.{repaired, without-All, repaired_from-All}
use greyd_v.Ipc.Writer.{is_special, sanitize, terminator}
use greyd_v.Ipc.Frame.{stream_lines, trim_right, trimmed_cons, next_raw}

abbrev pub NoNewline : Bytes → Type 0
NoNewline = All (λ c. c ≢ 10)

-- A text without a byte, by a test.
pub absent : (n : ℕ) (s : Bytes) → any (λ c. c == n) s ≡ false → All (λ c. c ≢ n) s
absent n [] h = tt
absent n (c ∷ cs) h = ground (arith, absent n cs)

pub sanitize-NoNewline : (v : Bytes) → NoNewline v → NoNewline (sanitize v)
unfolding sanitize repaired
sanitize-NoNewline v h =
    if_rule NoNewline (any is_special v)
      (λ some.
        without-All (λ c. c ≢ 10) is_special (repaired v)
          (repaired_from-All (λ c. c ≢ 10) 0 v (omega arith) (omega arith) (omega arith) h))
      λ clean. h

-- A line that starts with a name, without its newline.
pub data IsLine : Bytes → Type 0 where
  line : (c : ℕ) (cs : Bytes) → is_name_char c ≡ true → NoNewline (c ∷ cs) → IsLine (c ∷ cs)

unfoldable pub joined : List Bytes → Bytes
joined [] = []
joined (l ∷ ls) = l ++ (10 ∷ joined ls)

stream_lines-line :
    (l rest : Bytes)
    → NoNewline l
    → stream_lines (l ++ (10 ∷ rest)) ≡ (l ++ (10 ∷ [])) ∷ stream_lines rest
unfolding stream_lines
stream_lines-line [] rest h = refl
stream_lines-line (c ∷ cs) rest h = rw (stream_lines-line cs rest h.1) (ground (arith, h.0))

no_terminator :
    (c : ℕ) (t : Bytes) → is_name_char c ≡ true → bytes_eq (trimmed_cons c t) (codes "%%") ≡ false
unfolding bytes_eq
no_terminator c [] h = ground arith
no_terminator c (d ∷ ds) h = ground arith

next_raw-line :
    (max : ℕ) (body l : Bytes) (ls : List Bytes)
    → IsLine l
    → length body + length (l ++ (10 ∷ [])) ≤ max
    → next_raw max body ((l ++ (10 ∷ [])) ∷ ls) ≡ next_raw max (body ++ (l ++ (10 ∷ []))) ls
unfolding next_raw trim_right
next_raw-line max body _ ls (line c cs h n) fits =
    rw (no_terminator c (trim_right (cs ++ (10 ∷ []))) h) (ground arith)

terminated :
    (max : ℕ) (body rest : Bytes)
    → next_raw max body (stream_lines (terminator ++ rest)) ≡ (ok body, stream_lines rest)
unfolding next_raw stream_lines trim_right bytes_eq
terminated max body rest = refl

IsLine-NoNewline : (l : Bytes) → IsLine l → NoNewline l
IsLine-NoNewline _ (line c cs h n) = n

regroup : (body l j : Bytes) → (body ++ (l ++ (10 ∷ []))) ++ j ≡ body ++ (l ++ (10 ∷ j))
regroup body l j = simp append_assoc

-- The frame of whole lines, whatever body was read before and whatever follows.
pub next_raw-joined :
    (max : ℕ) (body : Bytes) (ls : List Bytes) (rest : Bytes)
    → All IsLine ls
    → length body + length (joined ls) ≤ max
    → next_raw max body (stream_lines (joined ls ++ (terminator ++ rest)))
      ≡ (ok (body ++ joined ls), stream_lines rest)
unfolding joined
next_raw-joined max body [] rest h fits =
    terminated max body rest ∙ ap (λ b. (ok b, stream_lines rest)) (sym (append-nil body))
next_raw-joined max body (l ∷ ls) rest h fits =
    let n = IsLine-NoNewline l h.0 in
    let whole : length (l ++ (10 ∷ [])) ≡ length l + 1 = length-append l (10 ∷ []) in
    let all : length (l ++ (10 ∷ joined ls)) ≡ length l + suc (length (joined ls)) =
      length-append l (10 ∷ joined ls) in
    let next = length-append body (l ++ (10 ∷ [])) in
    ap (λ b. next_raw max body (stream_lines b))
      (append_assoc l (10 ∷ joined ls) (terminator ++ rest))
    ∙ ap (next_raw max body) (stream_lines-line l (joined ls ++ (terminator ++ rest)) n)
    ∙ next_raw-line max body l (stream_lines (joined ls ++ (terminator ++ rest))) h.0 (omega arith)
    ∙ next_raw-joined max (body ++ (l ++ (10 ∷ []))) ls rest h.1 (omega arith)
    ∙ ap (λ b. (ok b, stream_lines rest)) (regroup body l (joined ls))
