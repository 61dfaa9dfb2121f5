-- ===== src/Scan.antt =====
-- The periodic scan of a key/value store: `Scan` of adapters/db/kv/kv.go, run on the transactions of
-- the in-process store (`tx.Scan` of adapters/db/memory/memory.go).
pub mod Walk
pub mod Rules
pub mod Snapshot
pub mod Live
use greyd_v.Base.{
  ℕ, Bytes, ◌==◌, ◌&&◌, if◌then◌else◌, bytes_eq, Bool, true, false, not, List, [], ◌∷◌, ◌++◌,
  Option, none, some, any,
}
use greyd_v.Base.Int.{ℤ, pos, leb_ℤ, ltb_ℤ, eq_ℤ, add64}
use greyd_v.Result.{Result, ok, err, read_only, ◌>>=◌}
use greyd_v.Core.{
  Key, key_ip, key_tuple, ip_key, Entry, pcount_trapped, pcount_spamtrap, ScanResult,
}
use greyd_v.Kv.{bucket_for, decode_key, decode_entry}
use greyd_v.Ip.{Addr, check_addr}
use greyd_v.Memory.{Tx, bucket, lookup, put, del, addr_state, iter}

-- The variables of the loop: the result, and the addresses that are on a whitelist already.
pub record State : Type 0 where
  pub res : ScanResult
  pub seen : List Bytes

abbrev pub initial : State
initial = record { res = record { whitelist = []; whitelist_v6 = []; traplist = [] }; seen = [] }

-- The loop over `it.Next()`: each entry of the snapshot that is still there goes to the body, and
-- what was deleted since is skipped.
module _ {S : Type 0} (body : Key → Entry → S → Tx → Result (S × Tx)) where
  unfoldable pub at_key : Key → (S → Tx → Result (S × Tx)) → Option Bytes → S → Tx → Result (S × Tx)
  at_key k later none s t = later s t
  at_key k later (some v) s t = do d ← decode_entry v; r ← body k d s t; later r.0 r.1

  unfoldable pub round : Bytes → (S → Tx → Result (S × Tx)) → S → Tx → Result (S × Tx)
  round raw later s t = do
    k ← decode_key raw
    at_key k later (lookup raw (bucket t.stored (bucket_for k.typ))) s t

  unfoldable pub walk : List Bytes → S → Tx → Result (S × Tx)
  unfolding round at_key
  walk [] s t = ok (s, t)
  walk (raw ∷ rest) s t = round raw (walk rest) s t

module _ (parse_addr : Bytes → Option Addr) where
  add_new : Bytes → State → State
  add_new addr s =
      let r = s.res in
      if eq_ℤ (check_addr parse_addr addr) (pos 6)
      then record s {
        res = record r { whitelist_v6 = r.whitelist_v6 ++ addr ∷ [] };
        seen = addr ∷ s.seen;
      }
      else record s {
        res = record r { whitelist = r.whitelist ++ addr ∷ [] };
        seen = addr ∷ s.seen;
      }

  -- The closure `addWhite`.
  unfoldable pub add_white : Bytes → State → State
  unfolding add_new
  add_white addr s = if any (bytes_eq addr) s.seen then s else add_new addr s

  -- A tuple whose pass time has come: its address becomes a white entry, and the tuple goes.
  unfoldable pub rekey : ℤ → ℤ → Key → Entry → State → Tx → Result (State × Tx)
  rekey now white_exp k d s t = do
    t1 ← put (ip_key k.tuple.ip) (record d { expire = add64 now white_exp }) t
    r ← del k t1
    ok (add_white k.tuple.ip s, r.1)

  -- A trapped or whitelisted address leaves the tuple alone.
  unfoldable pub promote : ℤ → ℤ → Key → Entry → State → Tx → Result (State × Tx)
  unfolding rekey
  promote now white_exp k d s t = do
    state ← addr_state k.tuple.ip t
    if not (state == 0) then ok (s, t) else rekey now white_exp k d s t

  -- One round of the loop, on entry `d` under key `k`.
  unfoldable pub visit : ℤ → ℤ → Key → Entry → State → Tx → Result (State × Tx)
  visit now white_exp k d s t =
      if leb_ℤ d.expire now && ltb_ℤ pcount_spamtrap d.pcount
      then (do r ← del k t; ok (s, r.1))
      else if eq_ℤ d.pcount pcount_trapped && k.typ == key_ip
      then ok (record s { res = record s.res { traplist = s.res.traplist ++ k.str ∷ [] } }, t)
      else if leb_ℤ (pos 0) d.pcount && leb_ℤ d.pass now
      then (if k.typ == key_tuple
          then promote now white_exp k d s t
          else if k.typ == key_ip
          then ok (add_white k.str s, t)
          else ok (s, t))
      else ok (s, t)

  -- `Scan`: IterEntries is 1.
  unfoldable pub scan : ℤ → ℤ → Tx → Result (ScanResult × Tx)
  scan now white_exp t =
      if t.is_read_only
      then err read_only
      else do r ← walk (visit now white_exp) (iter 1 t) initial t; ok (r.0.res, r.1)
