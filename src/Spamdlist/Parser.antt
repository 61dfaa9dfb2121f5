-- ===== src/Spamdlist/Parser.antt =====
-- internal/spamdlist/parser.go. The loops run on fuel: each round but the last takes a byte.
use greyd_v.Base.{
  ℕ, zero, suc, ◌+◌, ◌*◌, ◌%◌, ◌==◌, if◌then◌else◌, Bytes, Bool, true, false, not, ◌&&◌, ltb, leb,
  Option, none, some, length,
}
use greyd_v.Ip.{u32, cidr_to_range}
use greyd_v.Blacklist.{Blacklist, Colour, add_range}
use greyd_v.Spamdlist.Scanner.{
  Scanner, Token, TokenKind, new_scanner, next, plain, eof_token, eol, int6, int8, dot, dash, slash,
}

-- The parser: `colour` is the type of its ranges.
pub record Parser : Type 0 where
  pub scanner : Scanner
  pub curr : Token
  pub list : Blacklist
  pub colour : Colour
  pub limit : ℕ
  pub count : ℕ

-- How ParseLimited returns; an Error carries the line and the column.
pub data Parsed : Type 0 where
  complete : Parsed
  too_many_entries : Parsed
  syntax_error : (line col : ℕ) → Parsed

unfoldable pub advance : Parser → Parser
advance p = record p { curr = (next p.scanner).0; scanner = (next p.scanner).1 }

unfoldable pub errorf : Parser → Parsed
errorf p = syntax_error p.scanner.line p.scanner.col

abbrev is_eol : TokenKind → Bool
is_eol eol = true
is_eol _ = false

abbrev is_eof : TokenKind → Bool
is_eof eof_token = true
is_eof _ = false

abbrev is_number : TokenKind → Bool
is_number int6 = true
is_number int8 = true
is_number _ = false

abbrev is_int6 : TokenKind → Bool
is_int6 int6 = true
is_int6 _ = false

-- `accept` for a mark.
accept : (TokenKind → Bool) → Parser → Bool × Parser
accept k p = if k p.curr.kind then (true, advance p) else (false, p)

-- The loop of `accept(TokEOL)`: each line end took a byte.
skip_eols : ℕ → Parser → Parser
skip_eols zero p = p
skip_eols (suc fuel) p = let q = skip_eols fuel (advance p) in if is_eol p.curr.kind then q else p

unfoldable pub accept_eol : Parser → Bool × Parser
unfolding skip_eols
accept_eol p =
    if is_eol p.curr.kind
    then (true, skip_eols (suc (suc (length p.scanner.rest))) p)
    else (false, p)

is_dot : TokenKind → Bool
is_dot dot = true
is_dot _ = false

is_dash : TokenKind → Bool
is_dash dash = true
is_dash _ = false

is_slash : TokenKind → Bool
is_slash slash = true
is_slash _ = false

-- The loop of `address` with `left` numbers to go; `none` is the error at the parser's position.
unfoldable pub address_from : ℕ → ℕ → Parser → Option ℕ × Parser
unfolding accept is_dot
address_from zero addr p = (some addr, p)
address_from (suc left) addr p =
    let a = (addr * 256 + p.curr.val) % u32 in
    let q = advance p in
    let d = if left == 0 then (true, q) else accept is_dot q in
    let more = address_from left a d.1 in
    if not (is_number p.curr.kind) then (none, p) else if d.0 then more else (none, d.1)

unfoldable pub address : Parser → Option ℕ × Parser
address p = address_from 4 0 p

abbrev plus_one : ℕ → ℕ
plus_one n = (n + 1) % u32

-- `bl.AddRange(start, end, typ)`
abbrev record_range : ℕ → ℕ → Parser → Parser
record_range start end p = record p { list = add_range start end p.colour p.list }

to_second : ℕ → Option ℕ × Parser → Bool × Parser
to_second start (none, p) = (false, p)
to_second start (some last, p) = (true, record_range start (plus_one last) p)

-- What follows the first address.
unfoldable pub entry_from : Option ℕ × Parser → Bool × Parser
unfolding accept is_slash is_dash to_second
entry_from (none, p) = (false, p)
entry_from (some start, p) =
    if is_slash p.curr.kind
    then (let q = advance p in
        if is_int6 q.curr.kind
        then (
          true,
          record_range start
              (plus_one (cidr_to_range (record { addr = start; bits = q.curr.val })).1) (advance q),
        )
        else (false, q))
    else if is_dash p.curr.kind
    then to_second start (address (advance p))
    else (true, record_range start (plus_one start) p)

-- `entry`: false is its error, at the position of the parser that it leaves.
unfoldable pub entry : Parser → Bool × Parser
entry p = entry_from (address p)

-- The loop of `ParseLimited`: each entry takes a byte.
unfoldable pub entries : ℕ → Parser → Parsed × Parser
entries zero p = (errorf p, p)
entries (suc fuel) p =
    let r = entry p in
    let q = record r.1 { count = r.1.count + 1 } in
    let e = accept_eol q in
    let more = entries fuel e.1 in
    if ltb 0 p.limit && leb p.limit p.count
    then (too_many_entries, p)
    else if not r.0
    then (errorf r.1, r.1)
    else if not e.0
    then ((if is_eof e.1.curr.kind then complete else errorf e.1), e.1)
    else if is_eof e.1.curr.kind
    then (complete, e.1)
    else more

unfoldable pub parse_limited : Bytes → Blacklist → Colour → ℕ → Parsed × Parser
parse_limited bytes bl t max =
    let start : Parser = record {
      scanner = new_scanner bytes;
      curr = plain eof_token;
      list = bl;
      colour = t;
      limit = max;
      count = 0;
    } in
    let p = (accept_eol (advance start)).1 in
    if is_eof p.curr.kind then (complete, p) else entries (suc (length bytes)) p
