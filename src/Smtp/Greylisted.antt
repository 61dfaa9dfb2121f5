-- ===== src/Smtp/Greylisted.antt =====
-- What a greylisted client gets that comes as far as DATA (internal/smtp/state.go).
use greyd_v.Base.{
  Bytes, bytes_eq, bytes_eq_iff, Bool, true, false, not, ◌&&◌, [], ◌∷◌, ◌++◌, codes, length, take,
  map, ltb, ◌≡◌, refl, arith, if_rule,
}
use greyd_v.Core.{to_lower}
use greyd_v.Smtp.{
  ConnState, helo_in, mail_in, rcpt_in, data_in, close, Config, Conn, replied_grey, match_cmd, crlf,
}
use greyd_v.Smtp.Reply.{build_reply, grey_reply}
use greyd_v.Smtp.Proxy.{Env}
use greyd_v.Smtp.Next.{
  on_reply, on_data_in, on_rcpt_in, on_mail_in, on_helo_in, dispatch, next_state,
}

abbrev data_cmd : Bytes
data_cmd = codes "DATA"

-- A line that starts with DATA starts with no other command of four letters.
other_cmd :
    (input cmd : Bytes)
    → length cmd ≡ 4
    → bytes_eq (map to_lower data_cmd) (map to_lower cmd) ≡ false
    → match_cmd input data_cmd ≡ true
    → match_cmd input cmd ≡ false
unfolding match_cmd
other_cmd input cmd four differs h =
    let found =
      second (not (ltb (length input) 4))
        (bytes_eq (map to_lower (take 4 input)) (map to_lower data_cmd)) h in
    let start = (bytes_eq_iff (map to_lower (take 4 input)) (map to_lower data_cmd)).0 found in
    let other : bytes_eq (map to_lower (take (length cmd) input)) (map to_lower cmd) ≡ false =
      rw four (rw start differs) in
    refused (not (ltb (length input) (length cmd)))
      (bytes_eq (map to_lower (take (length cmd) input)) (map to_lower cmd)) other
  where
    second : (x y : Bool) → (x && y) ≡ true → y ≡ true
    second x y e = ground arith

    refused : (x y : Bool) → y ≡ false → (x && y) ≡ false
    refused x y e = ground arith

-- The reply that is due, and the end of the conversation.
pub record Deferred (c d : Conn) : Type 0 where
  pub is_over : d.state ≡ close
  pub deferred : d.out ≡ crlf grey_reply
  pub counted : d.effects ≡ c.effects ++ (replied_grey ∷ [])

-- The states in which a client may send DATA.
pub data TakesData : ConnState → Type 0 where
  after_banner : TakesData helo_in
  after_helo : TakesData mail_in
  after_mail : TakesData rcpt_in
  after_rcpt : TakesData data_in

module _ (cfg : Config) (env : Env) (c : Conn) (grey : cfg.greylist ≡ true)
    (clear : c.black ≡ false) (is_data : match_cmd c.in_buf data_cmd ≡ true) where
  on_data_in-Deferred : Deferred c (on_data_in cfg env c)
  unfolding on_data_in on_reply build_reply
  on_data_in-Deferred =
      rw (is_data, grey, clear) (record { is_over = refl; deferred = refl; counted = refl })

  on_rcpt_in-Deferred : Deferred c (on_rcpt_in cfg env c)
  unfolding on_rcpt_in to_lower bytes_eq
  on_rcpt_in-Deferred = rw (other_cmd c.in_buf (codes "RCPT") refl refl is_data) on_data_in-Deferred

  on_mail_in-Deferred : Deferred c (on_mail_in cfg env c)
  unfolding on_mail_in to_lower bytes_eq
  on_mail_in-Deferred = rw (other_cmd c.in_buf (codes "MAIL") refl refl is_data) on_rcpt_in-Deferred

  on_helo_in-Deferred : Deferred c (on_helo_in cfg env c)
  unfolding on_helo_in to_lower bytes_eq
  on_helo_in-Deferred =
      rw
        (
          other_cmd c.in_buf (codes "HELO") refl refl is_data,
          other_cmd c.in_buf (codes "EHLO") refl refl is_data,
        )
        on_mail_in-Deferred

  dispatch-Deferred : (st : ConnState) → TakesData st → Deferred c (dispatch cfg env st c)
  unfolding dispatch
  dispatch-Deferred st after_banner = on_helo_in-Deferred
  dispatch-Deferred st after_helo = on_mail_in-Deferred
  dispatch-Deferred st after_mail = on_rcpt_in-Deferred
  dispatch-Deferred st after_rcpt = on_data_in-Deferred

  -- A client that no blacklist matches, on a server that greylists, and that sends DATA after the
  -- banner, HELO, MAIL or RCPT, is answered with the temporary failure: the conversation is over,
  -- and a greylisting reply is counted.
  pub next_state-Deferred : c.closed ≡ false → TakesData c.state → Deferred c (next_state cfg env c)
  unfolding next_state to_lower bytes_eq
  next_state-Deferred open_ takes =
      if_rule (Deferred c) c.closed (λ done. absurd (apart done))
        λ still.
          rw
            (
              other_cmd c.in_buf (codes "QUIT") refl refl is_data,
              other_cmd c.in_buf (codes "RSET") refl refl is_data,
            )
            (dispatch-Deferred c.state takes)
    where
      apart : c.closed ≡ true → ⊥
      apart done = ground (arith, open_)
