-- ===== src/Grey/Blocked.antt =====
-- Greylisting as the scan sees it (internal/grey/greylister.go with adapters/db/kv/kv.go): an entry
-- that was seen once is never whitelisted, and one that was retried in time is.
use greyd_v.Base.{
  ℕ, ◌+◌, ◌<◌, ◌≤◌, ◌^◌, Bytes, if◌then◌else◌, Bool, true, false, Option, none, some, ◌≡◌, ◌⊎◌, ◌∙◌,
  refl, sym, arith,
}
use greyd_v.Kv.RoundTrip.{KeyIsValid}
use greyd_v.Memory.{Store, get, view}
use greyd_v.Memory.Laws.{get_mode}
use greyd_v.Memory.Transactions.{core_get}
use greyd_v.Grey.{Engine, SpfResult, Time, trap_check, checked, go_on, process_grey}
use greyd_v.Grey.Effects.{Wrote, live, begin, process_grey-retry}
use greyd_v.Core.{EntryInRange, ip_key}
use greyd_v.Scan.{add_white}
use greyd_v.Base.Int.{ℤ, pos, leb_ℤ, ltb_ℤ, add64, add64_pos, add64-InRange}
use greyd_v.Result.{ok, ◌>>=◌}
use greyd_v.Core.{Tuple, tuple_key, Entry}
use greyd_v.Ip.{Addr}
use greyd_v.Memory.{Tx, del}
use greyd_v.Scan.{State, visit}
use greyd_v.Scan.Rules.{visit_promotes, ip_key-KeyIsValid, key_ne}

-- The entry of a grey tuple first seen at `first`, and the same entry after a retry at `second`, as
-- the two messages leave them.
abbrev pub seen_once : ℕ → ℕ → Entry
seen_once first grey_expiry = record {
  first = pos first;
  pass = pos (first + grey_expiry);
  expire = pos (first + grey_expiry);
  bcount = pos 1;
  pcount = pos 0;
}

module _ (parse_addr : Bytes → Option Addr) (now white_exp : ℤ) where
  -- For a tuple whose entry has its expiry as its pass time and a pass count of 0, a round of the
  -- scan, at any time, deletes the entry if it has expired and leaves everything as it is if not:
  -- the address is not whitelisted.
  visit_holds :
      (gt : Tuple) (d : Entry) (s : State) (t : Tx)
      → d.pass ≡ d.expire
      → d.pcount ≡ pos 0
      → visit parse_addr now white_exp (tuple_key gt) d s t
        ≡ (if leb_ℤ d.expire now then (do r ← del (tuple_key gt) t; ok (s, r.1)) else ok (s, t))
  unfolding visit
  visit_holds gt d s t same grey = ground arith

module _ (g : Engine) (spf : Option (Bytes → Bytes → Bytes → SpfResult)) (gt : Tuple)
    (sync_out : Bool) (dst_ip : Bytes) (nano first second now pass_time grey_expiry white_exp : ℕ)
    (s : Store) (parse_addr : Bytes → Option Addr) (st : State) (writable : s.is_read_only ≡ false)
    (valid : KeyIsValid (tuple_key gt)) (fits : first + grey_expiry < 2 ^ 63)
    (fits_pass : first + pass_time < 2 ^ 63) (passes : g.pass_time ≡ pos pass_time)
    (known : core_get false (tuple_key gt) s ≡ ok (some (seen_once first grey_expiry)))
    (no_trap : view false (trap_check g gt.to) s ≡ ok 1)
    (clean : (sync_out ≡ false) ⊎ (checked g gt spf ≡ go_on))
    (in_time : second < first + grey_expiry) where
  abbrev at_second : Time
  at_second = record { unix = pos second; nano = nano }

  abbrev retried : Store
  retried = (process_grey g spf live gt sync_out dst_ip at_second s).store

  -- The entry that a retry leaves, with the given pass time.
  abbrev again : ℤ → Entry
  again pass = record {
    first = pos first;
    pass = pass;
    expire = pos (first + grey_expiry);
    bcount = add64 (pos 1) (pos 1);
    pcount = pos 0;
  }

  wrote :
      (pass : ℤ)
      → (if ltb_ℤ (add64 (pos first) g.pass_time) (pos second)
          then pos second
          else pos (first + grey_expiry))
        ≡ pass
      → Wrote s (process_grey g spf live gt sync_out dst_ip at_second s) (tuple_key gt) (again pass)
  wrote pass e = rw e at (
      process_grey-retry g spf gt sync_out dst_ip at_second s (seen_once first grey_expiry) writable
        valid (omega arith) no_trap clean known)

  again_InRange : second < 2 ^ 63 → EntryInRange (again (pos second))
  again_InRange h = record {
    first = omega arith;
    pass = h;
    expire = fits;
    bcount = add64-InRange (pos 1) (pos 1);
    pcount = omega arith;
  }

  -- In a writable store, for a valid tuple to no trap that the policy check says nothing against,
  -- known as seen once, at `first`: when it is retried at `second`, after the pass time, before its
  -- expiry, and the scan's round for it runs at `now`, from `second` on and before the expiry, then
  -- the address gets the tuple's entry, to live for `white_exp`, and is listed as white, and the
  -- tuple is gone, as long as the address had no entry of its own. The times fit in an int64.
  pub retry_whitelists :
      first + pass_time < second
      → second ≤ now
      → now < first + grey_expiry
      → core_get false (ip_key gt.ip) s ≡ ok none
      → (d : Entry) × (t : Tx) × (core_get false (tuple_key gt) retried ≡ ok (some d))
        × (visit parse_addr (pos now) (pos white_exp) (tuple_key gt) d st (begin retried)
            ≡ ok (add_white parse_addr gt.ip st, t))
        × (get (ip_key gt.ip) t ≡ ok (some (record d { expire = add64 (pos now) (pos white_exp) })))
        × (get (tuple_key gt) t ≡ ok none)
  unfolding core_get view
  retry_whitelists late due alive free =
      let late_pass =
        wrote (pos second) (rw (passes, add64_pos first pass_time fits_pass) (ground arith)) in
      let no_entry_yet =
        sym (get_mode (ip_key gt.ip) (begin retried) true)
        ∙ late_pass.others (ip_key gt.ip) (ip_key-KeyIsValid gt.ip) (λ e. absurd (omega arith))
            (key_ne (tuple_key gt) (ip_key gt.ip) (λ e. absurd (omega arith)))
        ∙ free in
      let (t, ran, white, gone, others) =
        visit_promotes parse_addr (pos now) (pos white_exp) gt (again (pos second)) st
          (begin retried) refl valid (again_InRange (omega arith)) (ground arith) (ground arith)
          (ground arith) no_entry_yet in
      (again (pos second), t, late_pass.written, ran, white, gone)

  -- In a writable store, for a valid tuple to no trap that the policy check says nothing against,
  -- known as seen once, at `first`: when it is retried within the pass time and before its expiry,
  -- a round of the scan for it, at any time, deletes the tuple if it has expired and leaves
  -- everything as it is if not. The times fit in an int64.
  pub retry_too_soon :
      second ≤ first + pass_time
      → (d : Entry) × (core_get false (tuple_key gt) retried ≡ ok (some d))
        × (visit parse_addr (pos now) (pos white_exp) (tuple_key gt) d st (begin retried) ≡ (
            if leb_ℤ d.expire (pos now)
            then (do r ← del (tuple_key gt) (begin retried); ok (st, r.1))
            else ok (st, begin retried)))
  unfolding core_get view
  retry_too_soon soon =
      let early =
        wrote (pos (first + grey_expiry))
          (rw (passes, add64_pos first pass_time fits_pass) (ground arith)) in
      (
        again (pos (first + grey_expiry)),
        early.written,
        visit_holds parse_addr (pos now) (pos white_exp) gt (again (pos (first + grey_expiry))) st
            (begin retried) refl refl,
      )
