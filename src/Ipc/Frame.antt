-- ===== src/Ipc/Frame.antt =====
-- internal/ipc/frame.go: messages in a stream. What is left of the stream is the list of its lines,
-- each with its newline; the last one may have none.
use greyd_v.Base.{
  ℕ, ◌+◌, ◌==◌, Bytes, bytes_eq, if◌then◌else◌, Bool, true, false, ◌||◌, ltb, List, [], ◌∷◌, ◌++◌,
  codes, length,
}
use greyd_v.Result.{Result, ok, err, frame_too_large, end_of_stream, ◌>>=◌}
use greyd_v.Ipc.{Message}
use greyd_v.Ipc.Scan.{parse_fields}
use greyd_v.Ipc.Classify.{classify}

-- What ReadString('\n') returns, one call after the other.
abbrev pub add_byte : ℕ → List Bytes → List Bytes
add_byte c [] = (c ∷ []) ∷ []
add_byte c (l ∷ ls) = (c ∷ l) ∷ ls

unfoldable pub stream_lines : Bytes → List Bytes
stream_lines [] = []
stream_lines (c ∷ cs) =
    let rest = stream_lines cs in if c == 10 then (c ∷ []) ∷ rest else add_byte c rest

-- strings.TrimRight(line, "\r\n")
abbrev pub is_line_end : ℕ → Bool
is_line_end c = c == 10 || c == 13

abbrev pub trimmed_cons : ℕ → Bytes → Bytes
trimmed_cons c [] = if is_line_end c then [] else c ∷ []
trimmed_cons c (d ∷ ds) = c ∷ (d ∷ ds)

unfoldable pub trim_right : Bytes → Bytes
trim_right [] = []
trim_right (c ∷ cs) = trimmed_cons c (trim_right cs)

abbrev is_empty : Bytes → Bool
is_empty [] = true
is_empty _ = false

-- `NextRaw` with the frame limit and the body so far; the lines after it, also after an error.
unfoldable pub next_raw : ℕ → Bytes → List Bytes → Result Bytes × List Bytes
unfolding trim_right bytes_eq
next_raw max body [] = if is_empty body then (err end_of_stream, []) else (ok body, [])
next_raw max body (l ∷ ls) =
    let more = next_raw max (body ++ l) ls in
    if bytes_eq (trim_right l) (codes "%%")
    then (ok body, ls)
    else if ltb max (length body + length l)
    then (err frame_too_large, ls)
    else more

-- `Decode`
unfoldable pub decode : Bytes → Result Message
decode body = do f ← parse_fields body; classify f

-- `Next`
unfoldable pub next : ℕ → List Bytes → Result Message × List Bytes
next max lines = let r = next_raw max [] lines in ((do body ← r.0; decode body), r.1)
