-- ===== src/Smtp/Proxied.antt =====
-- Whom the dialogue is with after a PROXY header: `applyProxyHeader` and `rematchAfterProxy` of
-- internal/smtp/state.go.
use greyd_v.Base.{
  Bytes, bytes_eq, codes, if◌then◌else◌, if_rule, Bool, true, false, not, ◌&&◌, List, [], ◌∷◌,
  Option, none, some, any, ◌+◌, ◌≡◌, ◌∙◌, ap, refl, arith,
}
use greyd_v.Ip.{Addr, unmap}
use greyd_v.Result.{ok}
use greyd_v.Blacklist.{Blacklist, is_match}
use greyd_v.Smtp.{Config, Conn, match_cmd, emit, proxy_header, source_reassigned}
use greyd_v.Smtp.Counters.{mark_black, reaches}
use greyd_v.Smtp.Proxy.{
  Env, proxied, apply_proxy_header, from_header, adopt, proxied_pair, client_addr, or_peer,
  matching, is_some, match_blacklists, recount_black, rematch_after_proxy, parse_proxy_header,
  parse_proxy_header_v2,
}

module _ (cfg : Config) (env : Env) where
  refused :
      (o : Option Bytes) (d : Conn)
      → is_match d.src cfg.permitted_proxies ≡ false
      → from_header cfg env o d ≡ (d, false)
  unfolding from_header
  refused none d h = ground (arith, h)
  refused (some hdr) d h = ground (arith, h)

  -- A peer that is no permitted proxy gets nothing by a header of either version: the dialogue is not
  -- to proceed, and the connection stays as it is, without the header.
  pub apply_proxy_header-refused :
      (c : Conn)
      → is_match c.src cfg.permitted_proxies ≡ false
      → apply_proxy_header cfg env c ≡ (record c { proxy_v2 = none }, false)
  unfolding apply_proxy_header
  apply_proxy_header-refused c h = refused c.proxy_v2 (record c { proxy_v2 = none }) h

  is_some-matching :
      (a : Addr) (bs : List Blacklist)
      → is_some cfg env (matching cfg env a bs) ≡ any (λ b. is_match a (some b)) bs
  unfolding matching is_some
  is_some-matching a [] = refl
  is_some-matching a (b ∷ bs) = ground (arith, is_some-matching a bs)

  -- The same client, destination, place in the counters and colour.
  abbrev Same : Conn → Conn → Type 0
  Same c d =
      (d.src_addr ≡ c.src_addr)
      × (d.dst_addr ≡ c.dst_addr)
      × (d.reserved_src ≡ c.reserved_src)
      × (d.black ≡ c.black)

  recount_black-Same : (c : Conn) → Same c (recount_black cfg env c)
  unfolding recount_black
  recount_black-Same c =
      if_rule (Same c) c.black
        (λ black.
          if_rule (Same c)
            (cfg.greylist && reaches (mark_black env.counters).0 (env.counters.max_black + 1))
            (λ full. (refl, refl, refl, refl)) λ room. (refl, refl, refl, refl))
        λ grey. (refl, refl, refl, refl)

  rematch-Same : (c : Conn) → Same (match_blacklists cfg env c) (rematch_after_proxy cfg env c)
  unfolding rematch_after_proxy
  rematch-Same c =
      let d = match_blacklists cfg env c in
      if_rule (Same d) (if c.black then not d.black else d.black) (λ changed. recount_black-Same d)
        λ same. (refl, refl, refl, refl)

  -- A header of either version that names the client and the destination.
  pub data Names (c : Conn) (src dst : Addr) : Type 0 where
    by_line :
        c.proxy_v2 ≡ none
        → match_cmd c.in_buf (codes "PROXY") ≡ true
        → parse_proxy_header env.parse_addr c.in_buf ≡ ok (src, dst)
        → Names c src dst
    by_bytes :
        (hdr : Bytes)
        → c.proxy_v2 ≡ some hdr
        → parse_proxy_header_v2 hdr ≡ ok (proxied src dst)
        → Names c src dst

  module _ (src dst : Addr) where
    -- A dialogue with the client, judged by its own address.
    abbrev pub Judged : Conn × Bool → Type 0
    Judged r =
        (r.1 ≡ true)
        × (r.0.src_addr ≡ env.addr_text src)
        × (r.0.dst_addr ≡ env.addr_text dst)
        × (r.0.reserved_src ≡ unmap src)
        × (r.0.black ≡ any (λ b. is_match src (some b)) env.blacklists)

    client_addr-named :
        (c : Conn)
        → cfg.proxy_protocol ≡ true
        → bytes_eq c.src_addr [] ≡ false
        → env.parse_addr c.src_addr ≡ some src
        → client_addr cfg env c ≡ src
    unfolding client_addr or_peer
    client_addr-named c on named reads = rw (on, named, reads) refl

    adopted :
        (c : Conn)
        → cfg.proxy_protocol ≡ true
        → bytes_eq (env.addr_text src) [] ≡ false
        → env.parse_addr (env.addr_text src) ≡ some src
        → Judged (adopt cfg env (ok (proxied src dst)) c)
    unfolding adopt match_blacklists
    adopted c on named reads =
        let d = record (emit (source_reassigned c.reserved_src (unmap src)) (emit proxy_header c)) {
          reserved_src = unmap src;
          src_addr = env.addr_text src;
          dst_addr = env.addr_text dst;
        } in
        let same = rematch-Same d in
        (
          refl,
          same.0,
          same.1,
          same.2,
          same.3
              ∙ ap (λ a. is_some cfg env (matching cfg env a env.blacklists))
                  (client_addr-named d on named reads)
              ∙ is_some-matching src env.blacklists,
        )

    -- A permitted proxy's header of either version: the dialogue is with the client that it names, by
    -- its address and its place in the counters, and it is blacklisted exactly if a blacklist matches
    -- that address, whatever the proxy's own address matched. An address is read back from its text.
    pub apply_proxy_header-Judged :
        (c : Conn)
        → is_match c.src cfg.permitted_proxies ≡ true
        → Names c src dst
        → cfg.proxy_protocol ≡ true
        → bytes_eq (env.addr_text src) [] ≡ false
        → env.parse_addr (env.addr_text src) ≡ some src
        → Judged (apply_proxy_header cfg env c)
    unfolding apply_proxy_header from_header proxied_pair
    apply_proxy_header-Judged c permitted (by_line text word header) on named reads =
        let there = adopted (record c { proxy_v2 = none }) on named reads in
        rw (text, word, permitted, header) there
    apply_proxy_header-Judged c permitted (by_bytes hdr bytes header) on named reads =
        let there = adopted (record c { proxy_v2 = none }) on named reads in
        rw (bytes, permitted, header) there
