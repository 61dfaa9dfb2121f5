-- ===== src/Ipc/Writer.antt =====
-- internal/ipc/writer.go: the text of the messages.
use greyd_v.Base.{
  ℕ, ◌==◌, Bytes, if◌then◌else◌, Bool, ◌||◌, ◌++◌, List, [], ◌∷◌, codes, any, map, Option,
}
use greyd_v.Base.Int.{eq_ℤ, pos}
use greyd_v.Ip.{Addr, check_addr}
use greyd_v.Ipc.{itoa}
use greyd_v.Ipc.Utf8.{repaired, without}

-- A double quote or a backslash.
abbrev pub is_special : ℕ → Bool
is_special c = c == 34 || c == 92

unfoldable pub sanitize : Bytes → Bytes
sanitize v = if any is_special v then without is_special (repaired v) else v

-- Terminator and a newline.
abbrev pub terminator : Bytes
terminator = codes "%%\n"

-- The methods of Builder: each is the text that it appends.
unfoldable pub int_line : Bytes → ℕ → Bytes
int_line name n = name ++ (codes " = " ++ (itoa n ++ (10 ∷ [])))

unfoldable pub str_line : Bytes → Bytes → Bytes
str_line name v = name ++ (codes " = \"" ++ (v ++ codes "\"\n"))

abbrev pub safe_line : Bytes → Bytes → Bytes
safe_line name v = str_line name (sanitize v)

-- A list's items between quotes, with commas.
unfoldable pub quoted_items : List Bytes → Bytes
quoted_items [] = []
quoted_items (v ∷ []) = 34 ∷ (v ++ (34 ∷ []))
quoted_items (v ∷ w ∷ vs) = 34 ∷ (v ++ (34 ∷ (b',' ∷ quoted_items (w ∷ vs))))

unfoldable pub list_line : Bytes → List Bytes → Bytes
unfolding quoted_items
list_line name vals = name ++ (codes "=[" ++ (quoted_items vals ++ codes "]\n"))

-- The body of WriteGrey's message.
unfoldable pub grey_body : Bytes → Bytes → Bytes → Bytes → Bytes → Bytes
grey_body dst_ip ip helo sender rcpt =
    int_line (codes "type") 1
    ++ (safe_line (codes "dst_ip") dst_ip
        ++ (safe_line (codes "ip") ip
            ++ (safe_line (codes "helo") helo
                ++ (safe_line (codes "from") sender ++ safe_line (codes "to") rcpt))))

-- `WriteGrey`
unfoldable pub write_grey : Bytes → Bytes → Bytes → Bytes → Bytes → Bytes
write_grey dst_ip ip helo sender rcpt = grey_body dst_ip ip helo sender rcpt ++ terminator

unfoldable pub sync_grey_body : Bytes → Bytes → Bytes → Bytes → Bytes
sync_grey_body ip helo sender rcpt =
    int_line (codes "type") 1
    ++ (int_line (codes "sync") 0
        ++ (safe_line (codes "ip") ip
            ++ (safe_line (codes "helo") helo
                ++ (safe_line (codes "from") sender ++ safe_line (codes "to") rcpt))))

-- `WriteGreyFromSync`
unfoldable pub write_grey_from_sync : Bytes → Bytes → Bytes → Bytes → Bytes
write_grey_from_sync ip helo sender rcpt = sync_grey_body ip helo sender rcpt ++ terminator

unfoldable pub addr_body : ℕ → Bytes → Bytes → ℕ → Bool → Bytes
addr_body msg_type ip source expires is_delete =
    int_line (codes "type") msg_type
    ++ (int_line (codes "sync") 0
        ++ (safe_line (codes "ip") ip
            ++ (safe_line (codes "source") source
                ++ (str_line (codes "expires") (itoa expires)
                    ++ int_line (codes "delete") (if is_delete then 1 else 0)))))

-- `WriteAddr`
unfoldable pub write_addr : ℕ → Bytes → Bytes → ℕ → Bool → Bytes
write_addr msg_type ip source expires is_delete =
    addr_body msg_type ip source expires is_delete ++ terminator

-- An assignment without blanks.
abbrev tight_str : Bytes → Bytes → Bytes
tight_str name v = name ++ (codes "=\"" ++ (v ++ codes "\"\n"))

abbrev tight_int : Bytes → ℕ → Bytes
tight_int name n = name ++ (codes "=" ++ (itoa n ++ (10 ∷ [])))

-- `WriteReplace`
unfoldable pub write_replace : Bytes → ℕ → List Bytes → Bytes
write_replace set af ips =
    tight_str (codes "type") (codes "replace")
    ++ (tight_str (codes "name") (sanitize set)
        ++ (tight_int (codes "af") af
            ++ (list_line (codes "ips") (map sanitize ips) ++ terminator)))

-- `WriteNAT`
unfoldable pub write_nat : Bytes → ℕ → Bytes → ℕ → Bytes
write_nat src src_port proxy proxy_port =
    tight_str (codes "type") (codes "nat")
    ++ (tight_str (codes "src") (sanitize src)
        ++ (tight_int (codes "src_port") src_port
            ++ (tight_str (codes "proxy") (sanitize proxy)
                ++ (tight_int (codes "proxy_port") proxy_port ++ terminator))))

-- `WriteDst`
unfoldable pub write_dst : Bytes → Bytes
write_dst dst = tight_str (codes "dst") (sanitize dst) ++ terminator

-- `WriteStatsRequest`
unfoldable pub write_stats_request : Bytes
write_stats_request = str_line (codes "type") (codes "stats") ++ terminator

-- `WriteScanStats`, of counts that are not negative.
unfoldable pub write_scan_stats : ℕ → ℕ → ℕ → ℕ → ℕ → ℕ → Bytes
write_scan_stats at grey white trapped spamtrap domain =
    str_line (codes "type") (codes "scan_stats")
    ++ (int_line (codes "at") at
        ++ (int_line (codes "grey") grey
            ++ (int_line (codes "white") white
                ++ (int_line (codes "trapped") trapped
                    ++ (int_line (codes "spamtrap") spamtrap
                        ++ (int_line (codes "domain") domain ++ terminator))))))

-- `WriteBlacklist`; netip.ParseAddr is the parameter.
module _ (parse_addr : Bytes → Option Addr) where
  with_bits : Bytes → Bytes
  with_bits addr =
      if any (λ c. c == b'/') addr
      then addr
      else addr ++ (if eq_ℤ (check_addr parse_addr addr) (pos 4) then codes "/32" else codes "/128")

  unfoldable pub write_blacklist : Bytes → Bytes → List Bytes → Bytes
  unfolding with_bits
  write_blacklist name text [] = []
  write_blacklist name text (addr ∷ ips) =
      tight_str (codes "name") name
      ++ (tight_str (codes "message") text
          ++ (list_line (codes "ips") (map with_bits (addr ∷ ips)) ++ terminator))
