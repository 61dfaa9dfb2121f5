-- ===== src/Grey/Rounds.antt =====
-- The periodic scan of internal/grey/greylister.go: `ScanOnce`, `reportCounts` and `updateFirewall`.
-- What is written to the pipes is returned.
pub mod Expired
use greyd_v.Base.{ℕ, Bytes, ◌==◌, if◌then◌else◌, Bool, true, false, List, [], ◌∷◌, ◌++◌, Option}
use greyd_v.Base.Int.{ℤ, pos}
use greyd_v.Core.{ScanResult}
use greyd_v.Ip.{Addr}
use greyd_v.Ipc.Writer.{write_blacklist, write_scan_stats, write_replace}
use greyd_v.Memory.{Store, update}
use greyd_v.Result.{Result, ok, err}
use greyd_v.Scan.{scan}
use greyd_v.Stats.{Counts, summarize}

-- The variables of `Greylister` that a scan uses: the pipes that are there, the names of the lists.
pub record Rounds : Type 0 where
  pub white_expiry : ℤ
  pub has_trap_out : Bool
  pub has_fw_out : Bool
  pub ipv6 : Bool
  pub traplist_name : Bytes
  pub traplist_message : Bytes
  pub whitelist_name : Bytes
  pub whitelist_name_v6 : Bytes

-- What the main process and the firewall process are sent.
pub record Told : Type 0 where
  pub main : Bytes
  pub firewall : Bytes

-- `updateFirewall` for the addresses of a family, 4 or 6; nothing is sent of an empty list.
unfoldable pub update_firewall : Rounds → ℕ → List Bytes → Bytes
update_firewall g af [] = []
update_firewall g af (ip ∷ ips) =
    if g.has_fw_out
    then write_replace (if af == 6 then g.whitelist_name_v6 else g.whitelist_name) af (ip ∷ ips)
    else []

-- `reportCounts`: nothing where the entries could not be counted.
unfoldable pub report_counts : ℕ → Result Counts → Bytes
report_counts now (err e) = []
report_counts now (ok c) = write_scan_stats now c.grey c.white c.trapped c.spamtrap c.domain

module _ (parse_addr : Bytes → Option Addr) (g : Rounds) (now : ℕ)
    (cancelled_update cancelled_view : Bool) where
  unfoldable pub told : ScanResult → Store → Told
  told res s = record {
    main =
        if g.has_trap_out
        then write_blacklist parse_addr g.traplist_name g.traplist_message res.traplist
          ++ report_counts now (summarize cancelled_view s)
        else [];
    firewall =
        update_firewall g 4 res.whitelist
        ++ (if g.ipv6 then update_firewall g 6 res.whitelist_v6 else []);
  }

  unfoldable pub after_scan : Result ScanResult × Store → Result Told × Store
  unfolding told
  after_scan (err e, s) = (err e, s)
  after_scan (ok res, s) = (ok (told res s), s)

  -- `ScanOnce`, at a time of seconds since the epoch.
  unfoldable pub scan_once : Store → Result Told × Store
  unfolding after_scan
  scan_once s = after_scan (update cancelled_update (scan parse_addr (pos now) g.white_expiry) s)
