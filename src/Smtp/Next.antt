-- ===== src/Smtp/Next.antt =====
-- `NextState` of internal/smtp/state.go. The source's loop goes from a case to a later one; here each
-- case is a function that calls the later one.
use greyd_v.Base.{
  ℕ, ◌+◌, Bytes, ◌==◌, if◌then◌else◌, bytes_eq, Bool, true, false, not, ◌&&◌, ◌||◌, ltb, leb, List,
  [], ◌∷◌, ◌++◌, codes,
}
use greyd_v.Core.{normalize_email}
use greyd_v.Smtp.{
  ConnState, proxy_in, proxy_out, banner_in, banner_out, helo_in, helo_out, mail_in, mail_out,
  rcpt_in, rcpt_out, data_in, data_out, message, reply, close, rank, Config, Conn, grey_tuple,
  max_bad_cmd, set_out, set_read, go, emit, close_conn, match_cmd, get_helo, get_addr,
}
use greyd_v.Smtp.Reply.{build_reply}
use greyd_v.Smtp.Proxy.{Env, apply_proxy_header}

abbrev line_end : Bytes
line_end = 13 ∷ 10 ∷ []

module _ (cfg : Config) (env : Env) where
  unfoldable pub on_reply : Conn → Conn
  on_reply c = go close (build_reply cfg.error_code c)

  unfoldable pub on_data_in : Conn → Conn
  on_data_in c =
      if match_cmd c.in_buf (codes "DATA")
      then (let d = record (set_out (codes "354 End data with <CR><LF>.<CR><LF>\r\n") c) {
        state = data_out;
        input = [];
      } in
          if cfg.greylist && not c.black then on_reply (go reply d) else d)
      else if match_cmd c.in_buf (codes "NOOP")
      then record (set_out (codes "250 OK\r\n") c) { state = c.last_state; input = [] }
      else (let d = record (set_out (codes "500 Command unrecognized\r\n") c) {
        bad_cmd = c.bad_cmd + 1;
      } in
          if ltb max_bad_cmd d.bad_cmd
          then on_reply (go reply d)
          else record d { state = d.last_state; input = [] })

  -- `lookupOrigDst`
  unfoldable pub lookup_orig_dst : Conn → Conn
  lookup_orig_dst c = if cfg.proxy_protocol then c else record c { dst_addr = env.orig_dst }

  unfoldable pub send_grey : Conn → Conn
  send_grey c =
      let d = lookup_orig_dst c in
      if env.grey_write_ok
      then emit (grey_tuple d.dst_addr d.src_addr d.helo d.mail d.rcpt) d
      else d

  unfoldable pub report_envelope : Conn → Conn
  report_envelope c =
      if not (bytes_eq c.mail [])
        && (not (bytes_eq c.rcpt []) && (cfg.greylist && (not c.black && cfg.grey_out)))
      then send_grey c
      else c

  unfoldable pub on_rcpt_in : Conn → Conn
  on_rcpt_in c =
      if match_cmd c.in_buf (codes "RCPT")
      then report_envelope (
          go rcpt_out (
            set_out (codes "250 OK\r\n") (record c { rcpt = normalize_email (get_addr c.in_buf) })))
      else on_data_in c

  unfoldable pub on_mail_in : Conn → Conn
  on_mail_in c =
      if match_cmd c.in_buf (codes "MAIL")
      then go mail_out
          (set_out (codes "250 OK\r\n") (record c { mail = normalize_email (get_addr c.in_buf) }))
      else on_rcpt_in c

  unfoldable pub on_helo_in : Conn → Conn
  on_helo_in c =
      if match_cmd c.in_buf (codes "HELO") || match_cmd c.in_buf (codes "EHLO")
      then (let d = record c { helo = get_helo c.in_buf } in
          if bytes_eq d.helo []
          then go banner_out (
              set_out
                (codes "501 Syntax: "
                  ++ ((if match_cmd c.in_buf (codes "HELO") then codes "HELO" else codes "EHLO")
                      ++ codes " hostname\r\n"))
                d)
          else go helo_out (set_out (codes "250 " ++ (cfg.hostname ++ line_end)) d))
      else on_mail_in c

  unfoldable pub on_banner_in : Conn → Conn
  on_banner_in c = go banner_out (
      set_out
        (codes "220 "
          ++ (cfg.hostname
              ++ (codes " ESMTP " ++ (cfg.banner ++ (codes "; " ++ (env.time_text ++ line_end))))))
        c)

  unfoldable pub on_proxy_out : Conn × Bool → Conn
  on_proxy_out (c, true) = on_banner_in c
  on_proxy_out (c, false) = on_reply c

  -- The loop over the lines of the message body: stop at a lone dot or at the tenth body line.
  unfoldable pub body_line : Bytes → Conn → Conn
  body_line line c =
      let d = if c.data_body then record c { data_lines = c.data_lines + 1 } else c in
      if not d.data_body && bytes_eq line [] then record d { data_body = true } else d

  unfoldable pub trim_cr : Bytes → Bytes
  trim_cr [] = []
  trim_cr (c ∷ []) = if c == 13 then [] else c ∷ []
  trim_cr (c ∷ d ∷ cs) = c ∷ trim_cr (d ∷ cs)

  unfoldable pub ends : Bytes → Conn → Bool
  ends line c = bytes_eq line (codes ".") || (c.data_body && leb 10 (c.data_lines + 1))

  -- What the loop leaves: the lines counted, and whether the reply is due.
  unfoldable pub counted : Bytes → Conn → Conn
  counted line c =
      if not (bytes_eq line (codes ".")) && c.data_body
      then record c { data_lines = c.data_lines + 1 }
      else c

  unfoldable pub body_lines : List Bytes → Conn → Conn × Bool
  unfolding body_line ends counted trim_cr
  body_lines [] c = (c, false)
  body_lines (l ∷ ls) c =
      let line = trim_cr l in
      let later = body_lines ls (body_line line c) in
      if ends line c then (counted line c, true) else later

  -- strings.Split(s, "\n")
  push_first : ℕ → List Bytes → List Bytes
  push_first c [] = (c ∷ []) ∷ []
  push_first c (l ∷ ls) = (c ∷ l) ∷ ls

  unfoldable pub split_lines : Bytes → List Bytes
  unfolding push_first
  split_lines [] = [] ∷ []
  split_lines (c ∷ cs) =
      let rest = split_lines cs in if c == 10 then [] ∷ rest else push_first c rest

  unfoldable pub after_body : Conn × Bool → Conn
  after_body (c, true) = on_reply (go reply c)
  after_body (c, false) = set_read c

  unfoldable pub on_message : Conn → Conn
  on_message c = after_body (body_lines (split_lines c.in_buf) c)

  -- The switch on the state.
  unfoldable pub dispatch : ConnState → Conn → Conn
  dispatch proxy_in c = set_read (go proxy_out c)
  dispatch proxy_out c = on_proxy_out (apply_proxy_header cfg env c)
  dispatch banner_in c = on_banner_in c
  dispatch banner_out c = set_read (go helo_in c)
  dispatch helo_in c = on_helo_in c
  dispatch helo_out c = set_read (go mail_in c)
  dispatch mail_in c = on_mail_in c
  dispatch mail_out c = set_read (go rcpt_in c)
  dispatch rcpt_in c = on_rcpt_in c
  dispatch rcpt_out c = set_read (go rcpt_in c)
  dispatch data_in c = on_data_in c
  dispatch data_out c = set_read (go message c)
  dispatch message c = on_message c
  dispatch reply c = on_reply c
  dispatch close c = close_conn c

  unfoldable pub next_state : Conn → Conn
  next_state c =
      if c.closed
      then c
      else if match_cmd c.in_buf (codes "QUIT") && ltb (rank c.state) (rank close)
      then go close (set_out (codes "221 " ++ (cfg.hostname ++ line_end)) c)
      else if match_cmd c.in_buf (codes "RSET")
          && (ltb (rank helo_out) (rank c.state) && ltb (rank c.state) (rank data_in))
      then go helo_out (set_out (codes "250 OK\r\n") c)
      else dispatch c.state c
