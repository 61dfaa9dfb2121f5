-- ===== src/Smtp/Proxy.antt =====
-- internal/smtp/proxy.go, and what state.go and conn.go do with a PROXY header: `applyProxyHeader`,
-- `matchBlacklists`, `rematchAfterProxy`.
use greyd_v.Base.{
  ℕ, ◌+◌, ◌/◌, ◌%◌, ◌==◌, ◌||◌, ◌&&◌, Bytes, bytes_eq, codes, if◌then◌else◌, Bool, true, false, not,
  ltb, List, [], ◌∷◌, Option, none, some, map, length, take, drop,
}
use greyd_v.Core.{to_lower}
use greyd_v.Result.{Result, ok, err, ◌>>=◌, proxy_unknown, proxy_invalid}
use greyd_v.Ip.{Addr, is4, unmap}
use greyd_v.Kv.{get_be}
use greyd_v.Blacklist.{Blacklist, is_match}
use greyd_v.Smtp.Text.{fields, match_cmd}
use greyd_v.Smtp.Reply.{summarize_lists}
use greyd_v.Smtp.Counters.{Counters, mark_black, reaches}
use greyd_v.Smtp.{
  Config, Conn, MatchedList, emit, proxy_header, source_reassigned, became_black, became_grey,
}

abbrev pub max_proxy_header : ℕ
max_proxy_header = 107

abbrev pub proxy_v2_header_len : ℕ
proxy_v2_header_len = 16

abbrev pub max_proxy_v2_length : ℕ
max_proxy_v2_length = 512

abbrev pub proxy_v2_signature : Bytes
proxy_v2_signature = codes "\r\n\r\n\0\r\nQUIT\n"

-- strings.EqualFold with a text of ASCII letters other than K and S.
abbrev pub equal_fold : Bytes → Bytes → Bool
equal_fold a b = bytes_eq (map to_lower a) (map to_lower b)

-- Where netip.ParseAddr reads an address.
module _ (parse_addr : Bytes → Option Addr) where
  family_from : Bool → Option Addr → Result Addr
  family_from want4 none = err proxy_invalid
  family_from true (some a) = if is4 a then ok a else err proxy_invalid
  family_from false (some a) = if is4 a then err proxy_invalid else ok a

  unfoldable pub parse_family : Bytes → Bool → Result Addr
  unfolding family_from
  parse_family s want4 = family_from want4 (parse_addr s)

  -- The addresses after the two first fields.
  unfoldable pub proxy_addrs : Bool → List Bytes → Result (Addr × Addr)
  unfolding parse_family
  proxy_addrs want4 (a ∷ b ∷ rest) = do
    src ← parse_family a want4
    dst ← parse_family b want4
    ok (src, dst)
  proxy_addrs want4 _ = err proxy_invalid

  unfoldable pub proxy_fields : List Bytes → Result (Addr × Addr)
  unfolding proxy_addrs bytes_eq
  proxy_fields (word ∷ family ∷ rest) =
      if not (equal_fold word (codes "PROXY"))
      then err proxy_invalid
      else if bytes_eq family (codes "UNKNOWN")
      then err proxy_unknown
      else if bytes_eq family (codes "TCP4")
      then proxy_addrs true rest
      else if bytes_eq family (codes "TCP6")
      then proxy_addrs false rest
      else err proxy_invalid
  proxy_fields _ = err proxy_invalid

  -- `ParseProxyHeader`
  unfoldable pub parse_proxy_header : Bytes → Result (Addr × Addr)
  unfolding proxy_fields fields
  parse_proxy_header line =
      if ltb max_proxy_header (length line) then err proxy_invalid else proxy_fields (fields line)

-- What a version 2 header says: to keep the connection's addresses, or the client's.
pub data V2 : Type 0 where
  local : V2
  proxied : Addr → Addr → V2

-- The addresses of a block, n bytes each.
abbrev pub block_addrs : ℕ → Bytes → V2
block_addrs n addrs =
    proxied (record { octets = take n addrs }) (record { octets = take n (drop n addrs) })

-- The switch on the family and the protocol.
unfoldable pub v2_family : ℕ → Bytes → Result V2
v2_family fam addrs =
    if fam == 17
    then if ltb (length addrs) 12 then err proxy_invalid else ok (block_addrs 4 addrs)
    else if fam == 33
    then if ltb (length addrs) 36 then err proxy_invalid else ok (block_addrs 16 addrs)
    else if fam == 0 || (fam == 18 || (fam == 34 || (fam == 49 || fam == 50)))
    then err proxy_unknown
    else err proxy_invalid

-- The bytes after the signature: version and command, family and protocol, length, block.
unfoldable pub v2_body : Bytes → Result V2
unfolding v2_family get_be
v2_body (ver_cmd ∷ fam ∷ l0 ∷ l1 ∷ addrs) =
    if not (ver_cmd / 16 == 2)
      || (ltb max_proxy_v2_length (get_be (l0 ∷ l1 ∷ []))
          || not (length addrs == get_be (l0 ∷ l1 ∷ [])))
    then err proxy_invalid
    else if ver_cmd % 16 == 0
    then ok local
    else if ver_cmd % 16 == 1
    then v2_family fam addrs
    else err proxy_invalid
v2_body _ = err proxy_invalid

-- `ParseProxyHeaderV2`
unfoldable pub parse_proxy_header_v2 : Bytes → Result V2
unfolding v2_body bytes_eq
parse_proxy_header_v2 b =
    if ltb (length b) proxy_v2_header_len || not (bytes_eq (take 12 b) proxy_v2_signature)
    then err proxy_invalid
    else v2_body (drop 12 b)

-- What the state machine asks of its surroundings: the text of the time in the banner, the original
-- destination of the connection, whether ipc.WriteGrey succeeds, netip's parser and printer of
-- addresses, the blacklists, the counters that the connections share as they are at the moment, and
-- the nanoseconds since the connection was made.
pub record Env : Type 0 where
  pub time_text : Bytes
  pub orig_dst : Bytes
  pub grey_write_ok : Bool
  pub parse_addr : Bytes → Option Addr
  pub addr_text : Addr → Bytes
  pub blacklists : List Blacklist
  pub counters : Counters
  pub elapsed : ℕ

module _ (cfg : Config) (env : Env) where
  unfoldable pub or_peer : Addr → Option Addr → Addr
  or_peer peer none = peer
  or_peer peer (some a) = a

  -- The address that the blacklists are asked about.
  unfoldable pub client_addr : Conn → Addr
  unfolding or_peer
  client_addr c =
      if cfg.proxy_protocol && not (bytes_eq c.src_addr [])
      then or_peer c.src (env.parse_addr c.src_addr)
      else c.src

  matched : Blacklist → MatchedList
  matched b = record { name = b.name; text = b.rejection }

  unfoldable pub matching : Addr → List Blacklist → List MatchedList
  unfolding matched
  matching a [] = []
  matching a (b ∷ bs) =
      let rest = matching a bs in if is_match a (some b) then matched b ∷ rest else rest

  unfoldable pub is_some : List MatchedList → Bool
  is_some [] = false
  is_some (l ∷ ls) = true

  -- `matchBlacklists`
  unfoldable pub match_blacklists : Conn → Conn
  unfolding is_some matching
  match_blacklists c =
      let lists = matching (client_addr c) env.blacklists in
      let black = is_some lists in
      record c {
        lists = lists;
        black = black;
        stutter = if cfg.greylist && (cfg.grey_stutter == 0 && not black) then 0 else cfg.stutter;
      }

  -- Stuttering is abandoned when too many clients are blacklisted.
  unfoldable pub recount_black : Conn → Conn
  recount_black c =
      if c.black
      then (let d = emit became_black c in
          if cfg.greylist && reaches (mark_black env.counters).0 (env.counters.max_black + 1)
          then record d { stutter = 0 }
          else d)
      else emit became_grey c

  -- `rematchAfterProxy`
  unfoldable pub rematch_after_proxy : Conn → Conn
  rematch_after_proxy c =
      let d = match_blacklists c in
      let e = if (if c.black then not d.black else d.black) then recount_black d else d in
      record e { list_summary = if e.black then summarize_lists e.lists else [] }

  -- What follows a header that was read, or was not.
  unfoldable pub adopt : Result V2 → Conn → Conn × Bool
  adopt (err e) c = (c, false)
  adopt (ok local) c = (emit proxy_header c, true)
  adopt (ok (proxied src dst)) c =
      let d = emit (source_reassigned c.reserved_src (unmap src)) (emit proxy_header c) in
      (
        rematch_after_proxy (record d {
          reserved_src = unmap src;
          src_addr = env.addr_text src;
          dst_addr = env.addr_text dst;
        }),
        true,
      )

  unfoldable pub proxied_pair : Result (Addr × Addr) → Result V2
  proxied_pair (ok (src, dst)) = ok (proxied src dst)
  proxied_pair (err e) = err e

  -- `allowProxy`, and the parser for the kind of header that was read.
  unfoldable pub from_header : Option Bytes → Conn → Conn × Bool
  unfolding proxied_pair
  from_header none c =
      if not (match_cmd c.in_buf (codes "PROXY")) || not (is_match c.src cfg.permitted_proxies)
      then (c, false)
      else adopt (proxied_pair (parse_proxy_header env.parse_addr c.in_buf)) c
  from_header (some hdr) c =
      if not (is_match c.src cfg.permitted_proxies)
      then (c, false)
      else adopt (parse_proxy_header_v2 hdr) c

  -- `applyProxyHeader`, and whether the dialogue may proceed.
  unfoldable pub apply_proxy_header : Conn → Conn × Bool
  unfolding from_header
  apply_proxy_header c = from_header c.proxy_v2 (record c { proxy_v2 = none })
