-- ===== src/Grey/Rounds/Expired.antt =====
-- What `ScanOnce` of internal/grey/greylister.go leaves in the store.
use greyd_v.Base.{ℕ, Bytes, Bool, true, false, Option, some, ◌≡◌, ◌∙◌, ap, sym, refl}
use greyd_v.Base.Int.{pos, add64, leb_ℤ}
use greyd_v.Core.{Key, Entry, ScanResult}
use greyd_v.Ip.{Addr}
use greyd_v.Kv.{bucket_for, entries}
use greyd_v.Kv.RoundTrip.{KeyIsValid}
use greyd_v.Memory.{Store, view, update}
use greyd_v.Memory.Laws.{get_mode}
use greyd_v.Memory.Transactions.{core_get}
use greyd_v.Memory.Transactions.Atomic.{update-eq-ok}
use greyd_v.Result.{Result, ok, err}
use greyd_v.Scan.{scan}
use greyd_v.Scan.Live.{Fresh, scan-Fresh}
use greyd_v.Grey.Rounds.{Rounds, Told, after_scan, scan_once}

module _ (parse_addr : Bytes → Option Addr) (g : Rounds) (now : ℕ) (cancelled_view : Bool) where
  scanned :
      (r : Result ScanResult × Store) (t : Told) (s' : Store)
      → after_scan parse_addr g now false cancelled_view r ≡ (ok t, s')
      → (res : ScanResult) × (r.0 ≡ ok res) × (r.1 ≡ s')
  unfolding after_scan
  scanned (err e, s) t s' h = absurd (cc (ap (λ p. p.0) h))
  scanned (ok res, s) t s' h = (res, refl, ap (λ p. p.1) h)

  -- Where a white entry's new expiry lies after now: once ScanOnce has ended without an error, what
  -- Get reads under a valid key of the entries bucket has not expired, or carries one of the
  -- sentinels of spamtraps and domains.
  pub scan_once-Fresh :
      leb_ℤ (add64 (pos now) g.white_expiry) (pos now) ≡ false
      → (s s' : Store) (t : Told) → scan_once parse_addr g now false cancelled_view s ≡ (ok t, s')
      → (j : Key) (d : Entry) → KeyIsValid j
      → bucket_for j.typ ≡ entries
      → core_get false j s' ≡ ok (some d)
      → Fresh (pos now) d
  unfolding scan_once core_get view
  scan_once-Fresh future s s' t h j d hj hb read =
      let (res, fine, same) =
        scanned (update false (scan parse_addr (pos now) g.white_expiry) s) t s' h in
      let (u, done, after) = update-eq-ok (scan parse_addr (pos now) g.white_expiry) s res fine in
      let mode = get_mode j u true in
      let stored : record s { db = u.stored } ≡ s' = sym after ∙ same in
      let there : core_get false j (record s { db = u.stored }) ≡ ok (some d) =
        ap (core_get false j) stored ∙ read in
      scan-Fresh parse_addr (pos now) g.white_expiry future
        (record { stored = s.db; is_read_only = false }) u res done j d hj hb (sym mode ∙ there)
