-- ===== src/Smtp/Reply.antt =====
-- internal/smtp/reply.go: the rejection messages; BuildReply of internal/smtp/conn.go.
use greyd_v.Base.{
  ℕ, ◌+◌, Bytes, ◌==◌, if◌then◌else◌, Bool, true, false, not, ◌&&◌, ◌||◌, ltb, List, [], ◌∷◌, ◌++◌,
  codes, length,
}
use greyd_v.Smtp.{MatchedList, Conn, replied_black, replied_grey, emit, set_out}

abbrev pub grey_reply : Bytes
grey_reply = codes "451 Temporary failure, please try again later.\r\n"

-- The loop of `ExpandMessage`; `saved` is a pending escape character, or 0. 92 is the backslash.
unfoldable pub expand_from : ℕ → Bytes → Bytes → Bytes
expand_from saved src [] = []
expand_from saved src (c ∷ cs) =
    if c == 92 || c == b'%'
    then (let wait = expand_from c src cs in
        let once = saved ∷ expand_from 0 src cs in if saved == 0 then wait else once)
    else (let rest = expand_from 0 src cs in
        if saved == 92 && c == b'n'
        then 10 ∷ rest
        else if saved == b'%' && c == b'A'
        then src ++ rest
        else if not (saved == 0)
        then saved ∷ c ∷ rest
        else c ∷ rest)

unfoldable pub expand_message : Bytes → Bytes → Bytes
unfolding expand_from
expand_message format src = expand_from 0 src format

-- The lines of a text whose last line is ended like the others: the parts between newlines, and a
-- last part only where it is not empty.
add_first : ℕ → List Bytes → List Bytes
add_first c [] = (c ∷ []) ∷ []
add_first c (l ∷ ls) = (c ∷ l) ∷ ls

unfoldable pub lines_of : Bytes → List Bytes
unfolding add_first
lines_of [] = []
lines_of (c ∷ cs) = let rest = lines_of cs in if c == 10 then [] ∷ rest else add_first c rest

-- `FormatReply` gives an empty message one empty line.
unfoldable pub message_lines : Bytes → List Bytes
unfolding lines_of
message_lines [] = [] ∷ []
message_lines text = lines_of text

unfoldable pub all_lines : Bytes → List MatchedList → List Bytes
unfolding message_lines expand_message
all_lines src [] = []
all_lines src (l ∷ ls) = message_lines (expand_message l.text src) ++ all_lines src ls

-- Each line behind the code: a dash on all but the last one.
unfoldable pub render : Bytes → List Bytes → Bytes
render error_code [] = []
render error_code (l ∷ []) = error_code ++ (32 ∷ (l ++ 10 ∷ []))
render error_code (l ∷ m ∷ ls) = error_code ++ (b'-' ∷ (l ++ (10 ∷ render error_code (m ∷ ls))))

unfoldable pub format_reply : List MatchedList → Bytes → Bytes → Bytes
unfolding render all_lines
format_reply lists error_code src = render error_code (all_lines src lists)

-- BLSummaryEtc and the room that it leaves of BLSummarySize.
abbrev summary_etc : Bytes
summary_etc = codes " ..."

abbrev summary_limit : ℕ
summary_limit = 76

-- The loop of `SummarizeLists`, with the text so far; the flag is whether a name was written.
unfoldable pub summarize_from : Bool → Bytes → List MatchedList → Bytes
summarize_from later acc [] = acc
summarize_from later acc (l ∷ ls) =
    let next = summarize_from true ((if later then acc ++ 32 ∷ [] else acc) ++ l.name) ls in
    if not (ltb (length acc + length l.name + 1) summary_limit) then acc ++ summary_etc else next

unfoldable pub summarize_lists : List MatchedList → Bytes
unfolding summarize_from
summarize_lists = summarize_from false []

unfoldable pub build_reply : Bytes → Conn → Conn
unfolding format_reply
build_reply error_code c =
    if c.black
    then set_out (format_reply c.lists error_code c.src_addr) (emit replied_black c)
    else set_out grey_reply (emit replied_grey c)
