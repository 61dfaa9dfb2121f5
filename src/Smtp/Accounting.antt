-- ===== src/Smtp/Accounting.antt =====
-- What a connection tells the counters (internal/smtp/conn.go, state.go), and that they count the open
-- connections whatever a connection does.
use mathlib.Core.Path.{subst}
use greyd_v.Base.{
  ℕ, ◌+◌, Bytes, codes, if◌then◌else◌, if_rule, Bool, true, false, not, ◌&&◌, ◌||◌, List, [], ◌∷◌,
  ◌++◌, Option, none, some, ◌≡◌, sym, refl, arith,
}
use greyd_v.Ip.{Addr, unmap}
use greyd_v.Result.{Result, ok, err}
use greyd_v.Smtp.{
  Config, Conn, Effect, grey_tuple, replied_black, replied_grey, closed_conn, source_reassigned,
  proxy_header, became_black, became_grey, match_cmd,
}
use greyd_v.Blacklist.{is_match}
use greyd_v.Smtp.Counters.{
  Counters, reserve, mark_black, unmark_black, reassign_source, remove, reaches,
}
use greyd_v.Smtp.Counters.Live.{Client, Counts, here}
use greyd_v.Smtp.Counters.Kept.{Step, admitted, marked, unmarked, reassigned, closed, Step-Counts}
use greyd_v.Smtp.Proxy.{
  Env, V2, local, proxied, apply_proxy_header, from_header, proxied_pair, adopt, match_blacklists,
  recount_black, rematch_after_proxy, parse_proxy_header, parse_proxy_header_v2,
}
use greyd_v.Smtp.Io.{Sink, new_conn, count_black, blank, serve}
use greyd_v.Smtp.Invariant.{View, view, tell, Laws, next_state-Inv}
use greyd_v.Smtp.Invariant.Served.{serve-Holds}

-- The call of the counters' method; what is told is counted at once.
unfoldable pub account : Effect → Counters → Counters
account (grey_tuple d s h m r) k = k
account replied_black k = k
account replied_grey k = k
account proxy_header k = k
account (source_reassigned old new) k = reassign_source old new k
account became_black k = (mark_black k).1
account became_grey k = unmark_black k
account (closed_conn src black) k = remove src black k

unfoldable pub account_all : List Effect → Counters → Counters
unfolding account
account_all [] k = k
account_all (e ∷ es) k = account_all es (account e k)

account_all-tell :
    (es : List Effect) (e : Effect) (k : Counters)
    → account_all (es ++ (e ∷ [])) k ≡ account e (account_all es k)
unfolding account_all
account_all-tell [] e k = refl
account_all-tell (d ∷ es) e k = account_all-tell es e (account d k)

-- The open connections: the others, and this one until it is closed.
abbrev pub open_clients : Bool → Addr → Bool → List Client → List Client
open_clients true src black others = others
open_clients false src black others = record { src = src; is_black = black } ∷ others

same_flag : (a b : Bool) → (if a then not b else b) ≡ false → b ≡ a
same_flag a b h = ground arith

module _ (cfg : Config) (env : Env) (k : Counters) (others : List Client) where
  -- The counters count the open connections, this one among them.
  abbrev pub Counted : View → Type 0
  Counted v = Counts (account_all v.effects k) (open_clients v.closed v.source v.black others)

  told :
      (v : View) (e : Effect) (live : List Client)
      → Counts (account e (account_all v.effects k)) live
      → Counts (account_all (v.effects ++ (e ∷ [])) k) live
  told v e live h = subst (λ c. Counts c live) (sym (account_all-tell v.effects e k)) h

  -- A step of an open connection that the counters are told of.
  stepped :
      (v : View) (e : Effect) (src : Addr) (black : Bool)
      → v.closed ≡ false
      → Step
          (account_all v.effects k)
          (record { src = v.source; is_black = v.black } ∷ others)
          (account e (account_all v.effects k))
          (record { src = src; is_black = black } ∷ others)
      → Counted v
      → Counted (record (tell e v) { source = src; black = black })
  stepped v e src black alive step h = told v e (open_clients v.closed src black others) (
      subst (λ b. Counts (account e (account_all v.effects k)) (open_clients b src black others))
        (sym alive)
        (Step-Counts _ _ _ _
          (subst (λ b. Counts (account_all v.effects k) (open_clients b v.source v.black others))
            alive h)
          step))

  -- A blacklist match that the new source changes, told to the counters.
  became_black-Counted :
      (v : View) (now : Bool)
      → v.closed ≡ false
      → v.black ≡ false
      → now ≡ true
      → Counted v
      → Counted (record (tell became_black v) { black = now })
  unfolding account
  became_black-Counted v now alive grey black h =
      let before = subst (λ b. Counted (record v { black = b })) grey h in
      let after =
        stepped (record v { black = false }) became_black v.source true alive
          (marked _ _ others v.source (here others)) before in
      subst (λ b. Counted (record (tell became_black v) { black = b })) (sym black) after

  became_grey-Counted :
      (v : View) (now : Bool)
      → v.closed ≡ false
      → v.black ≡ true
      → now ≡ false
      → Counted v
      → Counted (record (tell became_grey v) { black = now })
  unfolding account
  became_grey-Counted v now alive black grey h =
      let before = subst (λ b. Counted (record v { black = b })) black h in
      let after =
        stepped (record v { black = true }) became_grey v.source false alive
          (unmarked _ _ others v.source (here others)) before in
      subst (λ b. Counted (record (tell became_grey v) { black = b })) (sym grey) after

  recount_black-Counted :
      (c : Conn) (was : Bool)
      → c.closed ≡ false
      → (if was then not c.black else c.black) ≡ true
      → Counted (record (view c) { black = was })
      → Counted (view (recount_black cfg env c))
  unfolding recount_black
  recount_black-Counted c true alive changed h =
      let grey : c.black ≡ false = ground arith in
      if_rule (λ x. Counted (view x)) c.black (λ black. absurd (ground arith))
        λ is_grey. became_grey-Counted (record (view c) { black = true }) c.black alive refl grey h
  recount_black-Counted c false alive changed h =
      let told_black : Counted (record (tell became_black (view c)) { black = c.black }) =
        became_black-Counted (record (view c) { black = false }) c.black alive refl changed h in
      if_rule (λ x. Counted (view x)) c.black
        (λ black.
          if_rule (λ x. Counted (view x))
            (cfg.greylist && reaches (mark_black env.counters).0 (env.counters.max_black + 1))
            (λ full. told_black) λ room. told_black)
        λ grey. absurd (ground arith)

  rematch-Counted :
      (c : Conn)
      → c.closed ≡ false
      → Counted (view c)
      → Counted (view (rematch_after_proxy cfg env c))
  unfolding rematch_after_proxy match_blacklists
  rematch-Counted c alive h =
      let d = match_blacklists cfg env c in
      if_rule (λ x. Counted (view x)) (if c.black then not d.black else d.black)
        (λ changed. recount_black-Counted d c.black alive changed h)
        λ same.
          subst (λ b. Counted (record (view c) { black = b }))
            (sym (same_flag c.black d.black same)) h

  adopt-Counted :
      (r : Result V2) (c : Conn)
      → c.closed ≡ false
      → Counted (view c)
      → Counted (view (adopt cfg env r c).0)
  unfolding adopt account
  adopt-Counted (err e) c alive h = h
  adopt-Counted (ok local) c alive h = told (view c) proxy_header _ h
  adopt-Counted (ok (proxied src dst)) c alive h =
      let headed : Counted (tell proxy_header (view c)) = told (view c) proxy_header _ h in
      let moved =
        stepped (tell proxy_header (view c)) (source_reassigned c.reserved_src (unmap src))
          (unmap src) c.black alive
          (reassigned _ _ others c.reserved_src (unmap src) c.black (here others)) headed in
      rematch-Counted _ alive moved

  from_header-Counted :
      (o : Option Bytes) (c : Conn)
      → c.closed ≡ false
      → Counted (view c)
      → Counted (view (from_header cfg env o c).0)
  unfolding from_header
  from_header-Counted none c alive h =
      if_rule (λ (r : Conn × Bool). Counted (view r.0))
        (not (match_cmd c.in_buf (codes "PROXY")) || not (is_match c.src cfg.permitted_proxies))
        (λ refused. h)
        λ permitted.
          adopt-Counted (proxied_pair cfg env (parse_proxy_header env.parse_addr c.in_buf)) c alive
            h
  from_header-Counted (some hdr) c alive h =
      if_rule (λ (r : Conn × Bool). Counted (view r.0)) (not (is_match c.src cfg.permitted_proxies))
        (λ refused. h) λ permitted. adopt-Counted (parse_proxy_header_v2 hdr) c alive h

  abbrev counted_laws : Laws cfg env Counted
  unfolding account apply_proxy_header
  counted_laws = record {
    reads_line = λ v line h. h;
    reads_header = λ v h. h;
    takes_helo = λ v h. h;
    takes_mail = λ v h. h;
    takes_rcpt = λ v h. h;
    reports = λ v dst src h. told v (grey_tuple dst src v.helo v.mail v.rcpt) _ h;
    replies_black = λ v h. told v replied_black _ h;
    replies_grey = λ v h. told v replied_grey _ h;
    adopts = λ c alive h. from_header-Counted c.proxy_v2 (record c { proxy_v2 = none }) alive h;
    closes = λ v alive h. told v (closed_conn v.source v.black) others (
        Step-Counts _ _ _ _
          (subst (λ b. Counts (account_all v.effects k) (open_clients b v.source v.black others))
            alive h)
          (closed _ _ others v.source v.black (here others)));
  }

  count_black-Counted :
      (c : Conn)
      → c.closed ≡ false
      → Counted (record (view c) { black = false })
      → Counted (view (count_black cfg env c))
  unfolding count_black
  count_black-Counted c alive h =
      if_rule (λ x. Counted (view x)) c.black
        (λ black.
          let told_black : Counted (record (tell became_black (view c)) { black = c.black }) =
            became_black-Counted (record (view c) { black = false }) c.black alive refl black h in
          if_rule (λ x. Counted (view x))
            (cfg.greylist && reaches (mark_black env.counters).0 (env.counters.max_black + 1))
            (λ full. told_black) λ room. told_black)
        λ grey. subst (λ b. Counted (record (view c) { black = b })) (sym grey) h

  -- A connection that was admitted, from its start on and however long it is served, whatever arrives
  -- and whatever writes fail: with all that it told the counters they count the open connections, the
  -- others and, until it is closed, this one under its source and blacklisted or not. The other
  -- connections stay as they are meanwhile.
  pub serve-Counted :
      (before : Counters) (src : Addr) (fuel : ℕ) (arrivals : List Bytes) (s : Sink)
      → Counts before others
      → reserve (unmap src) before ≡ (true, k)
      → Counted (view (serve cfg env fuel (new_conn cfg env src) arrivals s).0)
  unfolding new_conn match_blacklists account_all
  serve-Counted before src fuel arrivals s counts reserved =
      let start =
        Step-Counts before k others _ counts (admitted before k others (unmap src) reserved) in
      serve-Holds cfg env Counted counted_laws fuel (new_conn cfg env src) arrivals s (
        next_state-Inv cfg env Counted counted_laws _
          (count_black-Counted (match_blacklists cfg env (blank cfg env src)) refl start))
