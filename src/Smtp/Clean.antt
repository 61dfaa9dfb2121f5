-- ===== src/Smtp/Clean.antt =====
-- A connection never holds or reports a NUL: `finishLine` of internal/smtp/conn.go cuts the line there,
-- and the text helpers of internal/smtp/state.go only take parts of the line.
use greyd_v.Base.{
  ℕ, ◌+◌, Bytes, if◌then◌else◌, if_rule, Bool, not, ◌&&◌, ◌||◌, List, [], ◌∷◌, Option, none, some,
  ◌≢◌, arith, All, All-append, codes,
}
use greyd_v.Ip.{Addr, unmap}
use greyd_v.Core.{to_lower}
use greyd_v.Kv.RoundTrip.{NulFree}
use greyd_v.Result.{Result, ok, err}
use greyd_v.Sync.Wire.{cstr}
use greyd_v.Blacklist.{is_match}
use greyd_v.Smtp.Text.{get_addr, match_cmd}
use greyd_v.Smtp.{
  Config, Conn, Effect, grey_tuple, replied_black, replied_grey, closed_conn, source_reassigned,
  proxy_header, became_black, became_grey,
}
use greyd_v.Smtp.Counters.{mark_black, reaches}
use greyd_v.Smtp.Proxy.{
  Env, V2, local, proxied, apply_proxy_header, from_header, proxied_pair, adopt, match_blacklists,
  recount_black, rematch_after_proxy, parse_proxy_header, parse_proxy_header_v2,
}
use greyd_v.Smtp.Io.{Sink, new_conn, count_black, blank, serve}
use greyd_v.Smtp.Invariant.{View, view, tell, Laws, next_state-Inv}
use greyd_v.Smtp.Invariant.Served.{serve-Holds}
use greyd_v.Smtp.Bytewise.{trim_right-All, get_helo-All, get_addr-All, normalize_email-All}

cstr-NulFree : (s : Bytes) → NulFree (cstr s)
unfolding cstr
cstr-NulFree [] = tt
cstr-NulFree (c ∷ cs) = let rest = cstr-NulFree cs in ground (arith, rest)

to_lower_nul : (c : ℕ) → c ≢ 0 → to_lower c ≢ 0
unfolding to_lower
to_lower_nul c h e = ground arith

-- A reported tuple has no NUL in what the client said.
unfoldable pub CleanEffect : Effect → Type 0
CleanEffect (grey_tuple dst src h m r) = NulFree h × NulFree m × NulFree r
CleanEffect _ = Unit {0}

abbrev pub CleanView : View → Type 0
CleanView v =
    NulFree v.in_buf × NulFree v.helo × NulFree v.mail × NulFree v.rcpt × All CleanEffect v.effects

tell-CleanView : (v : View) (e : Effect) → CleanEffect e → CleanView v → CleanView (tell e v)
tell-CleanView v e c h = (h.0, h.1, h.2, h.3, All-append CleanEffect v.effects (e ∷ []) h.4 (c, tt))

module _ (cfg : Config) (env : Env) where
  abbrev Clean : Conn → Type 0
  Clean c = CleanView (view c)

  recount_black-Clean : (c : Conn) → Clean c → Clean (recount_black cfg env c)
  unfolding recount_black CleanEffect
  recount_black-Clean c h =
      if_rule Clean c.black
        (λ black.
          if_rule Clean
            (cfg.greylist && reaches (mark_black env.counters).0 (env.counters.max_black + 1))
            (λ full. tell-CleanView (view c) became_black tt h)
            λ room. tell-CleanView (view c) became_black tt h)
        λ grey. tell-CleanView (view c) became_grey tt h

  rematch-Clean : (c : Conn) → Clean c → Clean (rematch_after_proxy cfg env c)
  unfolding rematch_after_proxy match_blacklists
  rematch-Clean c h =
      let d = match_blacklists cfg env c in
      if_rule Clean (if c.black then not d.black else d.black) (λ changed. recount_black-Clean d h)
        λ same. h

  adopt-Clean : (r : Result V2) (c : Conn) → Clean c → Clean (adopt cfg env r c).0
  unfolding adopt CleanEffect
  adopt-Clean (err e) c h = h
  adopt-Clean (ok local) c h = tell-CleanView (view c) proxy_header tt h
  adopt-Clean (ok (proxied src dst)) c h = rematch-Clean _ (
      tell-CleanView (tell proxy_header (view c)) (source_reassigned c.reserved_src (unmap src)) tt
        (tell-CleanView (view c) proxy_header tt h))

  from_header-Clean : (o : Option Bytes) (c : Conn) → Clean c → Clean (from_header cfg env o c).0
  unfolding from_header
  from_header-Clean none c h =
      if_rule (λ (r : Conn × Bool). Clean r.0)
        (not (match_cmd c.in_buf (codes "PROXY")) || not (is_match c.src cfg.permitted_proxies))
        (λ refused. h)
        λ permitted.
          adopt-Clean (proxied_pair cfg env (parse_proxy_header env.parse_addr c.in_buf)) c h
  from_header-Clean (some hdr) c h =
      if_rule (λ (r : Conn × Bool). Clean r.0) (not (is_match c.src cfg.permitted_proxies))
        (λ refused. h) λ permitted. adopt-Clean (parse_proxy_header_v2 hdr) c h

  abbrev clean_laws : Laws cfg env CleanView
  unfolding CleanEffect apply_proxy_header
  clean_laws = record {
    reads_line = λ v line h.
        (trim_right-All (λ c. c ≢ 0) (cstr line) (cstr-NulFree line), h.1, h.2, h.3, h.4);
    reads_header = λ v h. (tt, h.1, h.2, h.3, h.4);
    takes_helo = λ v h. (h.0, get_helo-All (λ c. c ≢ 0) v.in_buf h.0, h.2, h.3, h.4);
    takes_mail = λ v h. (
      h.0,
      h.1,
      normalize_email-All (λ c. c ≢ 0) to_lower_nul (get_addr v.in_buf)
          (get_addr-All (λ c. c ≢ 0) v.in_buf h.0),
      h.3,
      h.4,
    );
    takes_rcpt = λ v h. (
      h.0,
      h.1,
      h.2,
      normalize_email-All (λ c. c ≢ 0) to_lower_nul (get_addr v.in_buf)
          (get_addr-All (λ c. c ≢ 0) v.in_buf h.0),
      h.4,
    );
    reports =
        λ v dst src h. tell-CleanView v (grey_tuple dst src v.helo v.mail v.rcpt) (h.1, h.2, h.3) h;
    replies_black = λ v h. tell-CleanView v replied_black tt h;
    replies_grey = λ v h. tell-CleanView v replied_grey tt h;
    adopts = λ c alive h. from_header-Clean c.proxy_v2 (record c { proxy_v2 = none }) h;
    closes = λ v alive h. tell-CleanView v (closed_conn v.source v.black) tt h;
  }

  count_black-Clean : (c : Conn) → Clean c → Clean (count_black cfg env c)
  unfolding count_black CleanEffect
  count_black-Clean c h =
      if_rule Clean c.black
        (λ black.
          if_rule Clean
            (cfg.greylist && reaches (mark_black env.counters).0 (env.counters.max_black + 1))
            (λ full. tell-CleanView (view c) became_black tt h)
            λ room. tell-CleanView (view c) became_black tt h)
        λ grey. h

  -- Whatever arrives, and however long a connection is served, its line, its HELO name, its sender
  -- and its recipient have no NUL, nor has any tuple that it reported to the greylister in what the
  -- client said.
  pub serve-CleanView :
      (src : Addr) (fuel : ℕ) (arrivals : List Bytes) (s : Sink)
      → CleanView (view (serve cfg env fuel (new_conn cfg env src) arrivals s).0)
  unfolding new_conn match_blacklists
  serve-CleanView src fuel arrivals s =
      serve-Holds cfg env CleanView clean_laws fuel (new_conn cfg env src) arrivals s (
        next_state-Inv cfg env CleanView clean_laws _
          (count_black-Clean (match_blacklists cfg env (blank cfg env src)) (tt, tt, tt, tt, tt)))
