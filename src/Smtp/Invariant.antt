-- ===== src/Smtp/Invariant.antt =====
-- Invariants of a connection, kept by every transition, read and write of internal/smtp: the laws
-- that a property of what a connection holds has to satisfy.
pub mod Served
use greyd_v.Base.{
  ℕ, zero, suc, ◌+◌, Bytes, bytes_eq, codes, if◌then◌else◌, if_rule, Bool, true, false, not, ◌&&◌,
  ◌||◌, ltb, leb, List, [], ◌∷◌, ◌++◌, Option, none, some, ◌≡◌, ◌==◌, ◌-◌, ◌*◌, ◌^◌, refl, arith,
  length, drop, take,
}
use greyd_v.Core.{normalize_email}
use greyd_v.Ip.{Addr}
use greyd_v.Kv.{get_be}
use greyd_v.Ipc.Frame.{trim_right}
use greyd_v.Sync.Wire.{cstr}
use greyd_v.Smtp.{
  ConnState, proxy_in, proxy_out, banner_in, banner_out, helo_in, helo_out, mail_in, mail_out,
  rcpt_in, rcpt_out, data_in, data_out, message, reply, close, Config, Conn, Effect, grey_tuple,
  replied_black, replied_grey, closed_conn, rank, close_conn, match_cmd, get_helo, get_addr, go,
}
use greyd_v.Smtp.Proxy.{
  Env, apply_proxy_header, max_proxy_header, max_proxy_v2_length, proxy_v2_header_len,
}
use greyd_v.Smtp.Reply.{build_reply}
use greyd_v.Smtp.Next.{
  lookup_orig_dst, on_reply, on_data_in, on_rcpt_in, on_mail_in, on_helo_in, on_banner_in,
  on_proxy_out, send_grey, report_envelope, after_body, body_line, body_lines, trim_cr, ends,
  counted, split_lines, on_message, dispatch, next_state,
}

-- What the invariants speak of.
pub record View : Type 0 where
  pub in_buf : Bytes
  pub helo : Bytes
  pub mail : Bytes
  pub rcpt : Bytes
  pub source : Addr
  pub black : Bool
  pub closed : Bool
  pub effects : List Effect

abbrev pub view : Conn → View
view c = record {
  in_buf = c.in_buf;
  helo = c.helo;
  mail = c.mail;
  rcpt = c.rcpt;
  source = c.reserved_src;
  black = c.black;
  closed = c.closed;
  effects = c.effects;
}

abbrev pub tell : Effect → View → View
tell e v = record v { effects = v.effects ++ (e ∷ []) }

-- The steps that change what is held, for a connection that is open.
pub record Laws (cfg : Config) (env : Env) (V : View → Type 0) : Type 0 where
  pub reads_line :
      (v : View) (line : Bytes) → V v → V (record v { in_buf = trim_right (cstr line) })
  pub reads_header : (v : View) → V v → V (record v { in_buf = [] })
  pub takes_helo : (v : View) → V v → V (record v { helo = get_helo v.in_buf })
  pub takes_mail : (v : View) → V v → V (record v { mail = normalize_email (get_addr v.in_buf) })
  pub takes_rcpt : (v : View) → V v → V (record v { rcpt = normalize_email (get_addr v.in_buf) })
  pub reports :
      (v : View) (dst src : Bytes) → V v → V (tell (grey_tuple dst src v.helo v.mail v.rcpt) v)
  pub replies_black : (v : View) → V v → V (tell replied_black v)
  pub replies_grey : (v : View) → V v → V (tell replied_grey v)
  pub adopts :
      (c : Conn) → c.closed ≡ false → V (view c) → V (view (apply_proxy_header cfg env c).0)
  pub closes :
      (v : View)
      → v.closed ≡ false
      → V v
      → V (record (tell (closed_conn v.source v.black) v) { closed = true })

module _ (cfg : Config) (env : Env) (V : View → Type 0) (laws : Laws cfg env V) where
  abbrev pub Inv : Conn → Type 0
  Inv c = V (view c)

  pub close_conn-Inv : (c : Conn) → Inv c → Inv (close_conn c)
  unfolding close_conn
  close_conn-Inv c h = if_rule Inv c.closed (λ done. h) λ live. laws.closes (view c) live h

  on_reply-Inv : (c : Conn) → Inv c → Inv (on_reply cfg env c)
  unfolding on_reply build_reply
  on_reply-Inv c h =
      if_rule (λ x. Inv (go close x)) c.black (λ black. laws.replies_black (view c) h)
        λ grey. laws.replies_grey (view c) h

  on_data_in-Inv : (c : Conn) → Inv c → Inv (on_data_in cfg env c)
  unfolding on_data_in
  on_data_in-Inv c h =
      if_rule Inv (match_cmd c.in_buf (codes "DATA"))
        (λ is_data. if_rule Inv (cfg.greylist && not c.black) (λ grey. on_reply-Inv _ h) λ black. h)
        λ other.
          if_rule Inv (match_cmd c.in_buf (codes "NOOP")) (λ noop. h)
            λ bad. if_rule Inv (ltb 20 (c.bad_cmd + 1)) (λ many. on_reply-Inv _ h) λ few. h

  send_grey-Inv : (c : Conn) → Inv c → Inv (send_grey cfg env c)
  unfolding send_grey lookup_orig_dst
  send_grey-Inv c h =
      let d = lookup_orig_dst cfg env c in
      let same : Inv d = if_rule Inv cfg.proxy_protocol (λ kept. h) λ found. h in
      if_rule Inv env.grey_write_ok (λ wrote. laws.reports (view d) d.dst_addr d.src_addr same)
        λ failed. same

  report_envelope-Inv : (c : Conn) → Inv c → Inv (report_envelope cfg env c)
  unfolding report_envelope
  report_envelope-Inv c h =
      if_rule Inv
        (not (bytes_eq c.mail [])
          && (not (bytes_eq c.rcpt []) && (cfg.greylist && (not c.black && cfg.grey_out))))
        (λ due. send_grey-Inv c h) λ nothing. h

  on_rcpt_in-Inv : (c : Conn) → Inv c → Inv (on_rcpt_in cfg env c)
  unfolding on_rcpt_in
  on_rcpt_in-Inv c h =
      if_rule Inv (match_cmd c.in_buf (codes "RCPT"))
        (λ is_rcpt. report_envelope-Inv _ (laws.takes_rcpt (view c) h)) λ other. on_data_in-Inv c h

  on_mail_in-Inv : (c : Conn) → Inv c → Inv (on_mail_in cfg env c)
  unfolding on_mail_in
  on_mail_in-Inv c h =
      if_rule Inv (match_cmd c.in_buf (codes "MAIL")) (λ is_mail. laws.takes_mail (view c) h)
        λ other. on_rcpt_in-Inv c h

  on_helo_in-Inv : (c : Conn) → Inv c → Inv (on_helo_in cfg env c)
  unfolding on_helo_in
  on_helo_in-Inv c h =
      let named = laws.takes_helo (view c) h in
      if_rule Inv (match_cmd c.in_buf (codes "HELO") || match_cmd c.in_buf (codes "EHLO"))
        (λ is_helo. if_rule Inv (bytes_eq (get_helo c.in_buf) []) (λ empty. named) λ full. named)
        λ other. on_mail_in-Inv c h

  on_proxy_out-Inv : (r : Conn × Bool) → Inv r.0 → Inv (on_proxy_out cfg env r)
  unfolding on_proxy_out on_banner_in
  on_proxy_out-Inv (c, true) h = h
  on_proxy_out-Inv (c, false) h = on_reply-Inv c h

  body_line-Inv : (line : Bytes) (c : Conn) → Inv c → Inv (body_line cfg env line c)
  unfolding body_line
  body_line-Inv line c h =
      let d = if c.data_body then record c { data_lines = c.data_lines + 1 } else c in
      let same : Inv d = if_rule Inv c.data_body (λ body. h) λ header. h in
      if_rule Inv (not d.data_body && bytes_eq line []) (λ starts. same) λ goes_on. same

  counted-Inv : (line : Bytes) (c : Conn) → Inv c → Inv (counted cfg env line c)
  unfolding counted
  counted-Inv line c h =
      if_rule Inv (not (bytes_eq line (codes ".")) && c.data_body) (λ more. h) λ same. h

  body_lines-Inv : (ls : List Bytes) (c : Conn) → Inv c → Inv (body_lines cfg env ls c).0
  unfolding body_lines
  body_lines-Inv [] c h = h
  body_lines-Inv (l ∷ ls) c h =
      let line = trim_cr cfg env l in
      let later = body_lines-Inv ls (body_line cfg env line c) (body_line-Inv line c h) in
      if_rule (λ (r : Conn × Bool). Inv r.0) (ends cfg env line c) (λ last. counted-Inv line c h)
        λ more. later

  after_body-Inv : (r : Conn × Bool) → Inv r.0 → Inv (after_body cfg env r)
  unfolding after_body
  after_body-Inv (c, true) h = on_reply-Inv _ h
  after_body-Inv (c, false) h = h

  dispatch-Inv :
      (st : ConnState) (c : Conn) → c.closed ≡ false → Inv c → Inv (dispatch cfg env st c)
  unfolding dispatch on_message on_banner_in
  dispatch-Inv proxy_in c alive h = h
  dispatch-Inv proxy_out c alive h =
      on_proxy_out-Inv (apply_proxy_header cfg env c) (laws.adopts c alive h)
  dispatch-Inv helo_in c alive h = on_helo_in-Inv c h
  dispatch-Inv mail_in c alive h = on_mail_in-Inv c h
  dispatch-Inv rcpt_in c alive h = on_rcpt_in-Inv c h
  dispatch-Inv data_in c alive h = on_data_in-Inv c h
  dispatch-Inv message c alive h =
      after_body-Inv (body_lines cfg env (split_lines cfg env c.in_buf) c)
        (body_lines-Inv (split_lines cfg env c.in_buf) c h)
  dispatch-Inv reply c alive h = on_reply-Inv c h
  dispatch-Inv close c alive h = close_conn-Inv c h
  dispatch-Inv _ c alive h = h

  pub next_state-Inv : (c : Conn) → Inv c → Inv (next_state cfg env c)
  unfolding next_state
  next_state-Inv c h =
      if_rule Inv c.closed (λ done. h)
        λ live.
          if_rule Inv (match_cmd c.in_buf (codes "QUIT") && ltb (rank c.state) (rank close))
            (λ quit. h)
            λ stay.
              if_rule Inv
                (match_cmd c.in_buf (codes "RSET")
                  && (ltb (rank helo_out) (rank c.state) && ltb (rank c.state) (rank data_in)))
                (λ reset. h) λ other. dispatch-Inv c.state c live h
