-- ===== src/Smtp/Io.antt =====
-- How a connection is driven: `NewConn`, `HandleRead`, `HandleWrite` and `Serve` of
-- internal/smtp/conn.go. A socket gives what has arrived, at most what is asked for; after the last
-- arrival, or an empty one, a read fails. A write sends all or fails, as io.Writer has it.
use greyd_v.Base.{
  ℕ, zero, suc, ◌+◌, ◌-◌, ◌*◌, ◌^◌, ◌==◌, ◌||◌, ◌&&◌, Bytes, bytes_eq, codes, if◌then◌else◌, Bool,
  true, false, not, ltb, leb, List, [], ◌∷◌, ◌++◌, Option, none, some, any, length, take, drop,
}
use greyd_v.Ip.{Addr, unmap}
use greyd_v.Kv.{get_be}
use greyd_v.Ipc.Frame.{trim_right}
use greyd_v.Sync.Wire.{cstr}
use greyd_v.Smtp.Counters.{Counters, mark_black, reaches, up}
use greyd_v.Smtp.Reply.{summarize_lists}
use greyd_v.Smtp.Proxy.{
  Env, match_blacklists, max_proxy_header, proxy_v2_header_len, max_proxy_v2_length,
  proxy_v2_signature,
}
use greyd_v.Smtp.Next.{next_state}
use greyd_v.Smtp.{
  Config, Conn, ConnState, proxy_in, proxy_out, banner_in, banner_out, close_conn, emit,
  became_black,
}

-- Counters.WithinMax: there is room for ClientTolerance = 5 more.
unfoldable pub within_max : Counters → Bool
within_max c = not (reaches (up (up (up (up (up c.clients))))) c.max_cons)

abbrev pub has_newline : Bytes → Bool
has_newline s = any (λ c. c == 10) s

abbrev is_empty : Bytes → Bool
is_empty [] = true
is_empty (c ∷ cs) = false

-- The rest of an arrival, if any, before the others.
abbrev pub push_back : Bytes → List Bytes → List Bytes
push_back [] later = later
push_back (c ∷ cs) later = (c ∷ cs) ∷ later

-- The loop of `HandleRead`: up to a chunk with a newline, or the limit. `none` where the connection is
-- closed instead.
unfoldable pub read_line : ℕ → Bytes → List Bytes → Option (Bytes × List Bytes)
read_line limit input [] = if ltb (length input) limit then none else some (input, [])
read_line limit input (a ∷ later) =
    let room = limit - length input in
    let got = take room a in
    let more = read_line limit (input ++ got) later in
    if not (ltb (length input) limit)
    then some (input, a ∷ later)
    else if is_empty a
    then none
    else if has_newline got || not (is_empty (drop room a))
    then some (input ++ got, push_back (drop room a) later)
    else more

-- The loops of `readProxyHeader`: while there is room and the input is to go on.
unfoldable pub read_while : (Bytes → Bool) → ℕ → Bytes → List Bytes → Option (Bytes × List Bytes)
read_while wants limit input [] =
    if ltb (length input) limit && wants input then none else some (input, [])
read_while wants limit input (a ∷ later) =
    let room = limit - length input in
    let more = read_while wants limit (input ++ take room a) later in
    if not (ltb (length input) limit && wants input)
    then some (input, a ∷ later)
    else if is_empty a
    then none
    else if not (is_empty (drop room a))
    then some (input ++ take room a, push_back (drop room a) later)
    else more

-- bytes.HasPrefix(ProxyV2Signature, in) and bytes.HasPrefix(in, ProxyV2Signature).
abbrev pub may_be_v2 : Bytes → Bool
may_be_v2 input = bytes_eq (take (length input) proxy_v2_signature) input

abbrev pub is_v2 : Bytes → Bool
is_v2 input = bytes_eq (take 12 input) proxy_v2_signature

abbrev pub min : ℕ → ℕ → ℕ
min a b = if ltb b a then b else a

-- What was written, whether the next writes succeed, and the seconds slept.
pub record Sink : Type 0 where
  pub sent : Bytes
  pub succeeds : List Bool
  pub slept : ℕ

unfoldable pub write_from : Bytes → Sink → List Bool → Bool × Sink
write_from bs s [] = (false, s)
write_from bs s (true ∷ later) = (true, record s { sent = s.sent ++ bs; succeeds = later })
write_from bs s (false ∷ later) = (false, record s { succeeds = later })

unfoldable pub write : Bytes → Sink → Bool × Sink
unfolding write_from
write bs s = write_from bs s s.succeeds

module _ (cfg : Config) (env : Env) where
  -- A connection before its blacklists are looked up.
  abbrev pub blank : Addr → Conn
  blank src = record {
    state = if cfg.proxy_protocol then proxy_in else banner_in;
    last_state = banner_out;
    src = src;
    reserved_src = unmap src;
    src_addr = env.addr_text (unmap src);
    dst_addr = [];
    helo = [];
    mail = [];
    rcpt = [];
    lists = [];
    list_summary = [];
    stutter = 0;
    input = [];
    in_buf = [];
    proxy_v2 = none;
    out = [];
    out_pos = 0;
    seen_cr = false;
    bad_cmd = 0;
    data_body = false;
    data_lines = 0;
    pending_read = false;
    pending_write = false;
    closed = false;
    black = false;
    effects = [];
  }

  -- The counts and the stutter of a client that a blacklist matches.
  unfoldable pub count_black : Conn → Conn
  count_black c =
      if c.black
      then (let d = record (emit became_black c) { list_summary = summarize_lists c.lists } in
          if cfg.greylist && reaches (mark_black env.counters).0 (env.counters.max_black + 1)
          then record d { stutter = 0 }
          else d)
      else c

  -- `NewConn`
  unfoldable pub new_conn : Addr → Conn
  new_conn src = next_state cfg env (count_black (match_blacklists cfg env (blank src)))

  -- `finishLine`: the line up to a NUL, without its newline.
  unfoldable pub finish_line : Bytes → Conn → Conn
  finish_line input c =
      next_state cfg env
        (record c { input = input; in_buf = trim_right (cstr input); pending_read = false })

  unfoldable pub after_line : Conn → List Bytes → Option (Bytes × List Bytes) → Conn × List Bytes
  after_line c arrivals none = (close_conn c, [])
  after_line c arrivals (some (input, later)) = (finish_line input c, later)

  unfoldable pub after_v1 : Conn → Option (Bytes × List Bytes) → Conn × List Bytes
  after_v1 c none = (close_conn c, [])
  after_v1 c (some (input, later)) =
      (finish_line (if has_newline input then input else codes "PROXY OVERLONG") c, later)

  unfoldable pub after_block : Conn → Option (Bytes × List Bytes) → Conn × List Bytes
  after_block c none = (close_conn c, [])
  after_block c (some (input, later)) = (
    next_state cfg env
        (record c { input = input; proxy_v2 = some input; in_buf = []; pending_read = false }),
    later,
  )

  unfoldable pub after_v2 : Conn → Option (Bytes × List Bytes) → Conn × List Bytes
  unfolding after_block
  after_v2 c none = (close_conn c, [])
  after_v2 c (some (input, later)) =
      let declared = get_be (take 2 (drop 14 input)) in
      if ltb max_proxy_v2_length declared
      then (close_conn (record c { input = input }), later)
      else after_block c (read_while (λ i. true) (proxy_v2_header_len + declared) input later)

  unfoldable pub after_start : Conn → Option (Bytes × List Bytes) → Conn × List Bytes
  unfolding after_v1 after_v2
  after_start c none = (close_conn c, [])
  after_start c (some (input, later)) =
      if is_v2 input
      then after_v2 c (read_while (λ i. true) proxy_v2_header_len input later)
      else after_v1 c
          (read_while (λ i. not (has_newline i)) (min cfg.line_limit max_proxy_header) input later)

  -- `readProxyHeader`
  unfoldable pub read_proxy_header : Conn → List Bytes → Conn × List Bytes
  unfolding after_start
  read_proxy_header c arrivals = after_start c (read_while may_be_v2 12 c.input arrivals)

  unfoldable pub read_in : ConnState → Conn → List Bytes → Conn × List Bytes
  unfolding after_line
  read_in proxy_out c arrivals = read_proxy_header c arrivals
  read_in st c arrivals = after_line c arrivals (read_line cfg.line_limit c.input arrivals)

  -- `HandleRead`
  unfoldable pub handle_read : Conn → List Bytes → Conn × List Bytes
  unfolding read_in
  handle_read c arrivals =
      if c.closed || not c.pending_read then (c, arrivals) else read_in c.state c arrivals

  -- The stuttering of a greylisted connection ends after the initial delay.
  unfoldable pub calmed : Conn → Conn
  calmed c =
      if ltb 0 c.stutter
        && (cfg.greylist && (not c.black && ltb (cfg.grey_stutter * 10 ^ 9) env.elapsed))
      then record c { stutter = 0 }
      else c

  unfoldable pub after_write : ℕ → Conn → Bool × Sink → Conn × Sink
  after_write n c (false, s) = (close_conn c, s)
  after_write n c (true, s) = (record c { out_pos = c.out_pos + n }, s)

  unfoldable pub after_cr : ℕ → Bytes → Conn → Bool × Sink → Conn × Sink
  unfolding after_write
  after_cr b pending c (false, s) = (close_conn c, s)
  after_cr b pending c (true, s) =
      let n = if within_max env.counters && ltb 0 c.stutter then 1 else length pending in
      after_write n (record c { seen_cr = b == 13 }) (write (take n pending) s)

  -- One write of what is pending, a CR first where a newline has none.
  unfoldable pub write_pending : Bytes → Conn → Sink → Conn × Sink
  unfolding after_cr
  write_pending [] c s = (c, s)
  write_pending (b ∷ bs) c s =
      after_cr b (b ∷ bs) c (if b == 10 && not c.seen_cr then write (13 ∷ []) s else (true, s))

  unfoldable pub after_pending : Conn × Sink → Conn × Sink
  after_pending (c, s) =
      if c.closed
      then (c, s)
      else if leb (length c.out) c.out_pos
      then (next_state cfg env (record c { pending_write = false }), s)
      else (c, record s { slept = s.slept + c.stutter })

  -- `HandleWrite`
  unfoldable pub handle_write : Conn → Sink → Conn × Sink
  unfolding after_pending
  handle_write c s =
      if c.closed || not c.pending_write
      then (c, s)
      else after_pending (write_pending (drop c.out_pos c.out) (calmed c) s)

  -- One round of the loop of `Serve`.
  unfoldable pub serve_step : Conn → List Bytes → Sink → Conn × List Bytes × Sink
  serve_step c arrivals s =
      if c.pending_write
      then (let r = handle_write c s in (r.0, arrivals, r.1))
      else if c.pending_read
      then (let r = handle_read c arrivals in (r.0, r.1, s))
      else (close_conn c, arrivals, s)

  -- `Serve`, up to a number of rounds.
  unfoldable pub serve : ℕ → Conn → List Bytes → Sink → Conn × List Bytes × Sink
  serve zero c arrivals s = (c, arrivals, s)
  serve (suc fuel) c arrivals s =
      let r = serve_step c arrivals s in
      let later = serve fuel r.0 r.1 r.2 in if c.closed then (c, arrivals, s) else later
