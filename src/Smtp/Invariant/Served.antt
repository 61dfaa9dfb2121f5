-- ===== src/Smtp/Invariant/Served.antt =====
-- An invariant of a connection holds however long `Serve` of internal/smtp/conn.go drives it, whatever
-- arrives and whatever writes fail.
use greyd_v.Base.{
  ℕ, zero, suc, ◌+◌, ◌*◌, ◌^◌, Bytes, if◌then◌else◌, if_rule, Bool, true, false, not, ◌&&◌, ◌||◌,
  ltb, leb, List, [], ◌∷◌, Option, none, some, ◌==◌, length, drop, take,
}
use greyd_v.Kv.{get_be}
use greyd_v.Smtp.{ConnState, proxy_out, Config, Conn, close_conn}
use greyd_v.Smtp.Proxy.{Env, max_proxy_header, max_proxy_v2_length, proxy_v2_header_len}
use greyd_v.Smtp.Io.{
  Sink, write, has_newline, read_line, read_while, finish_line, after_line, after_v1, after_block,
  after_v2, after_start, is_v2, may_be_v2, min, read_proxy_header, read_in, handle_read, calmed,
  after_write, after_cr, write_pending, after_pending, handle_write, serve_step, serve, within_max,
}
use greyd_v.Smtp.Invariant.{View, view, Laws, Inv, close_conn-Inv, next_state-Inv}

module _ (cfg : Config) (env : Env) (V : View → Type 0) (laws : Laws cfg env V) where
  abbrev Holds : Conn → Type 0
  Holds = Inv cfg env V laws

  closed-Holds : (c : Conn) → Holds c → Holds (close_conn c)
  closed-Holds = close_conn-Inv cfg env V laws

  finish_line-Holds : (input : Bytes) (c : Conn) → Holds c → Holds (finish_line cfg env input c)
  unfolding finish_line
  finish_line-Holds input c h = next_state-Inv cfg env V laws _ (laws.reads_line (view c) input h)

  after_line-Holds :
      (c : Conn) (arrivals : List Bytes) (o : Option (Bytes × List Bytes))
      → Holds c
      → Holds (after_line cfg env c arrivals o).0
  unfolding after_line
  after_line-Holds c arrivals none h = closed-Holds c h
  after_line-Holds c arrivals (some (input, later)) h = finish_line-Holds input c h

  after_v1-Holds :
      (c : Conn) (o : Option (Bytes × List Bytes)) → Holds c → Holds (after_v1 cfg env c o).0
  unfolding after_v1
  after_v1-Holds c none h = closed-Holds c h
  after_v1-Holds c (some (input, later)) h = finish_line-Holds _ c h

  after_block-Holds :
      (c : Conn) (o : Option (Bytes × List Bytes)) → Holds c → Holds (after_block cfg env c o).0
  unfolding after_block
  after_block-Holds c none h = closed-Holds c h
  after_block-Holds c (some (input, later)) h =
      next_state-Inv cfg env V laws _ (laws.reads_header (view c) h)

  after_v2-Holds :
      (c : Conn) (o : Option (Bytes × List Bytes)) → Holds c → Holds (after_v2 cfg env c o).0
  unfolding after_v2
  after_v2-Holds c none h = closed-Holds c h
  after_v2-Holds c (some (input, later)) h =
      let declared = get_be (take 2 (drop 14 input)) in
      if_rule (λ (r : Conn × List Bytes). Holds r.0) (ltb max_proxy_v2_length declared)
        (λ long. closed-Holds (record c { input = input }) h)
        λ fits.
          after_block-Holds c (read_while (λ i. true) (proxy_v2_header_len + declared) input later)
            h

  after_start-Holds :
      (c : Conn) (o : Option (Bytes × List Bytes)) → Holds c → Holds (after_start cfg env c o).0
  unfolding after_start
  after_start-Holds c none h = closed-Holds c h
  after_start-Holds c (some (input, later)) h =
      if_rule (λ (r : Conn × List Bytes). Holds r.0) (is_v2 input)
        (λ binary. after_v2-Holds c (read_while (λ i. true) proxy_v2_header_len input later) h)
        λ text.
          after_v1-Holds c
            (read_while (λ i. not (has_newline i)) (min cfg.line_limit max_proxy_header) input
              later)
            h

  read_in-Holds :
      (st : ConnState) (c : Conn) (arrivals : List Bytes)
      → Holds c
      → Holds (read_in cfg env st c arrivals).0
  unfolding read_in read_proxy_header
  read_in-Holds proxy_out c arrivals h =
      after_start-Holds c (read_while may_be_v2 12 c.input arrivals) h
  read_in-Holds _ c arrivals h =
      after_line-Holds c arrivals (read_line cfg.line_limit c.input arrivals) h

  handle_read-Holds :
      (c : Conn) (arrivals : List Bytes) → Holds c → Holds (handle_read cfg env c arrivals).0
  unfolding handle_read
  handle_read-Holds c arrivals h =
      if_rule (λ (r : Conn × List Bytes). Holds r.0) (c.closed || not c.pending_read) (λ idle. h)
        λ reads. read_in-Holds c.state c arrivals h

  calmed-Holds : (c : Conn) → Holds c → Holds (calmed cfg env c)
  unfolding calmed
  calmed-Holds c h =
      if_rule Holds
        (ltb 0 c.stutter
          && (cfg.greylist && (not c.black && ltb (cfg.grey_stutter * 10 ^ 9) env.elapsed)))
        (λ calm. h) λ same. h

  after_write-Holds :
      (n : ℕ) (c : Conn) (r : Bool × Sink) → Holds c → Holds (after_write cfg env n c r).0
  unfolding after_write
  after_write-Holds n c (false, s) h = closed-Holds c h
  after_write-Holds n c (true, s) h = h

  after_cr-Holds :
      (b : ℕ) (pending : Bytes) (c : Conn) (r : Bool × Sink)
      → Holds c
      → Holds (after_cr cfg env b pending c r).0
  unfolding after_cr
  after_cr-Holds b pending c (false, s) h = closed-Holds c h
  after_cr-Holds b pending c (true, s) h =
      let n = if within_max env.counters && ltb 0 c.stutter then 1 else length pending in
      after_write-Holds n (record c { seen_cr = b == 13 }) (write (take n pending) s) h

  write_pending-Holds :
      (pending : Bytes) (c : Conn) (s : Sink)
      → Holds c
      → Holds (write_pending cfg env pending c s).0
  unfolding write_pending
  write_pending-Holds [] c s h = h
  write_pending-Holds (b ∷ bs) c s h =
      after_cr-Holds b (b ∷ bs) c
        (if b == 10 && not c.seen_cr then write (13 ∷ []) s else (true, s)) h

  after_pending-Holds : (r : Conn × Sink) → Holds r.0 → Holds (after_pending cfg env r).0
  unfolding after_pending
  after_pending-Holds (c, s) h =
      if_rule (λ (r : Conn × Sink). Holds r.0) c.closed (λ done. h)
        λ alive.
          if_rule (λ (r : Conn × Sink). Holds r.0) (leb (length c.out) c.out_pos)
            (λ sent. next_state-Inv cfg env V laws _ h) λ more. h

  handle_write-Holds : (c : Conn) (s : Sink) → Holds c → Holds (handle_write cfg env c s).0
  unfolding handle_write
  handle_write-Holds c s h =
      if_rule (λ (r : Conn × Sink). Holds r.0) (c.closed || not c.pending_write) (λ idle. h)
        λ writes.
          after_pending-Holds (write_pending cfg env (drop c.out_pos c.out) (calmed cfg env c) s)
            (write_pending-Holds (drop c.out_pos c.out) (calmed cfg env c) s (calmed-Holds c h))

  serve_step-Holds :
      (c : Conn) (arrivals : List Bytes) (s : Sink)
      → Holds c
      → Holds (serve_step cfg env c arrivals s).0
  unfolding serve_step
  serve_step-Holds c arrivals s h =
      if_rule (λ (r : Conn × List Bytes × Sink). Holds r.0) c.pending_write
        (λ writes. handle_write-Holds c s h)
        λ no_write.
          if_rule (λ (r : Conn × List Bytes × Sink). Holds r.0) c.pending_read
            (λ reads. handle_read-Holds c arrivals h) λ stuck. closed-Holds c h

  pub serve-Holds :
      (fuel : ℕ) (c : Conn) (arrivals : List Bytes) (s : Sink)
      → Holds c
      → Holds (serve cfg env fuel c arrivals s).0
  unfolding serve
  serve-Holds zero c arrivals s h = h
  serve-Holds (suc fuel) c arrivals s h =
      let r = serve_step cfg env c arrivals s in
      let later = serve-Holds fuel r.0 r.1 r.2 (serve_step-Holds c arrivals s h) in
      if_rule (λ (q : Conn × List Bytes × Sink). Holds q.0) c.closed (λ done. h) λ alive. later
