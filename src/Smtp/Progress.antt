-- ===== src/Smtp/Progress.antt =====
-- `Serve` of internal/smtp/conn.go is never stuck: after every transition a write or a read is
-- pending, or the connection is closed.
use greyd_v.Base.{
  ◌+◌, Bool, true, false, not, ◌&&◌, ◌||◌, [], ◌≡◌, refl, arith, if_rule, bytes_eq, codes, ltb,
}
use greyd_v.Smtp.{
  ConnState, proxy_in, proxy_out, banner_in, helo_in, helo_out, mail_in, rcpt_in, data_in, message,
  reply, close, Config, Conn, rank, close_conn, match_cmd,
}
use greyd_v.Smtp.Proxy.{Env, apply_proxy_header}
use greyd_v.Smtp.Reply.{build_reply}
use greyd_v.Smtp.Next.{
  lookup_orig_dst, on_reply, on_data_in, on_rcpt_in, on_mail_in, on_helo_in, on_banner_in,
  on_proxy_out, send_grey, report_envelope, after_body, body_lines, split_lines, on_message,
  dispatch, next_state,
}
use greyd_v.Smtp.{get_helo, go}

pub data Pending (c : Conn) : Type 0 where
  writes : c.pending_write ≡ true → Pending c
  reads : c.pending_read ≡ true → Pending c
  is_closed : c.closed ≡ true → Pending c

module _ (cfg : Config) (env : Env) where
  on_reply-Pending : (c : Conn) → Pending (on_reply cfg env c)
  unfolding on_reply build_reply
  on_reply-Pending c =
      if_rule (λ x. Pending (go close x)) c.black (λ black. writes refl) λ grey. writes refl

  on_data_in-Pending : (c : Conn) → Pending (on_data_in cfg env c)
  unfolding on_data_in
  on_data_in-Pending c =
      if_rule Pending (match_cmd c.in_buf (codes "DATA"))
        (λ is_data.
          if_rule Pending (cfg.greylist && not c.black) (λ grey. on_reply-Pending _)
            λ black. writes refl)
        λ other.
          if_rule Pending (match_cmd c.in_buf (codes "NOOP")) (λ noop. writes refl)
            λ bad.
              if_rule Pending (ltb 20 (c.bad_cmd + 1)) (λ many. on_reply-Pending _)
                λ few. writes refl

  report_envelope-pending_write :
      (c : Conn) → (report_envelope cfg env c).pending_write ≡ c.pending_write
  unfolding report_envelope send_grey lookup_orig_dst
  report_envelope-pending_write c = ground arith

  on_rcpt_in-Pending : (c : Conn) → Pending (on_rcpt_in cfg env c)
  unfolding on_rcpt_in
  on_rcpt_in-Pending c =
      if_rule Pending (match_cmd c.in_buf (codes "RCPT"))
        (λ is_rcpt. writes (report_envelope-pending_write _)) λ other. on_data_in-Pending c

  on_mail_in-Pending : (c : Conn) → Pending (on_mail_in cfg env c)
  unfolding on_mail_in
  on_mail_in-Pending c =
      if_rule Pending (match_cmd c.in_buf (codes "MAIL")) (λ is_mail. writes refl)
        λ other. on_rcpt_in-Pending c

  on_helo_in-Pending : (c : Conn) → Pending (on_helo_in cfg env c)
  unfolding on_helo_in
  on_helo_in-Pending c =
      if_rule Pending (match_cmd c.in_buf (codes "HELO") || match_cmd c.in_buf (codes "EHLO"))
        (λ is_helo.
          if_rule Pending (bytes_eq (get_helo c.in_buf) []) (λ empty. writes refl)
            λ named. writes refl)
        λ other. on_mail_in-Pending c

  on_proxy_out-Pending : (r : Conn × Bool) → Pending (on_proxy_out cfg env r)
  unfolding on_proxy_out on_banner_in
  on_proxy_out-Pending (c, true) = writes refl
  on_proxy_out-Pending (c, false) = on_reply-Pending c

  after_body-Pending : (r : Conn × Bool) → Pending (after_body cfg env r)
  unfolding after_body
  after_body-Pending (c, true) = on_reply-Pending (go reply c)
  after_body-Pending (c, false) = reads refl

  close_conn-Pending : (c : Conn) → Pending (close_conn c)
  unfolding close_conn
  close_conn-Pending c = if_rule Pending c.closed (λ done. is_closed done) λ live. is_closed refl

  dispatch-Pending : (st : ConnState) (c : Conn) → Pending (dispatch cfg env st c)
  unfolding dispatch on_banner_in on_message
  dispatch-Pending proxy_in c = reads refl
  dispatch-Pending proxy_out c = on_proxy_out-Pending (apply_proxy_header cfg env c)
  dispatch-Pending banner_in c = writes refl
  dispatch-Pending helo_in c = on_helo_in-Pending c
  dispatch-Pending mail_in c = on_mail_in-Pending c
  dispatch-Pending rcpt_in c = on_rcpt_in-Pending c
  dispatch-Pending data_in c = on_data_in-Pending c
  dispatch-Pending message c =
      after_body-Pending (body_lines cfg env (split_lines cfg env c.in_buf) c)
  dispatch-Pending reply c = on_reply-Pending c
  dispatch-Pending close c = close_conn-Pending c
  dispatch-Pending _ c = reads refl

  -- After a transition from any state, on any input line, a write or a read is pending or the
  -- connection is closed.
  pub next_state-Pending : (c : Conn) → Pending (next_state cfg env c)
  unfolding next_state
  next_state-Pending c =
      if_rule Pending c.closed (λ done. is_closed done)
        λ live.
          if_rule Pending (match_cmd c.in_buf (codes "QUIT") && ltb (rank c.state) (rank close))
            (λ quit. writes refl)
            λ stay.
              if_rule Pending
                (match_cmd c.in_buf (codes "RSET")
                  && (ltb (rank helo_out) (rank c.state) && ltb (rank c.state) (rank data_in)))
                (λ reset. writes refl) λ other. dispatch-Pending c.state c
