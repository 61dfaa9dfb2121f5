-- ===== src/Bolt/Equivalent.antt =====
-- The scan of adapters/db/bolt/bolt.go is that of adapters/db/kv/kv.go.
use mathlib.Core.Path.{subst}
use greyd_v.Base.{
  Bytes, if◌then◌else◌, true, false, List, [], ◌∷◌, Option, some, ◌≡◌, sym, ap, ◌∙◌, All, lookup,
  map,
}
use greyd_v.Base.Int.{ℤ}
use greyd_v.Result.{Result, read_only, ok, err, ◌>>=◌}
use greyd_v.Core.{ScanResult, ip_key}
use greyd_v.Ip.{Addr}
use greyd_v.Kv.{encode_key}
use greyd_v.Memory.{Tx, iter}
use greyd_v.Scan.{State, initial, visit, walk, scan}
use greyd_v.Bolt
use greyd_v.Bolt.{Bucket, Walk, start, member, state_of_raw, apply_dels, apply_puts}
use greyd_v.Bolt.Rounds.{Agree, Alike, All-both}
use greyd_v.Bolt.Walks.{Visits, walk-Alike}

-- The two stores hold the same entries: the bucket gives what the in-process transaction has for every key,
-- its cursor visits what it holds in the order of the transaction's iterator, addresses before tuples.
pub record Stored {B : Type 0} (bbolt : Bucket B) (b : B) (t : Tx) : Type 0 where
  pub same : (k : Bytes) → lookup k t.stored.of_entries ≡ bbolt.get k b
  pub order : iter 1 t ≡ map (λ p. p.0) (bbolt.cursor b)
  pub visits : Visits (bbolt.cursor b)
  pub holds : All (λ p. bbolt.get p.0 b ≡ some p.1) (bbolt.cursor b)

-- The same error; or the same result, and stores that hold the same entries.
unfoldable pub SameScan :
    {B : Type 0} → Bucket B → Result (ScanResult × Tx) → Result (ScanResult × B) → Type 0
SameScan bbolt (err e) (err f) = e ≡ f
SameScan bbolt (err e) (ok r) = true ≡ false
SameScan bbolt (ok r) (err f) = true ≡ false
SameScan bbolt (ok (res, t)) (ok (shown, b)) =
    (res ≡ shown) × ((k : Bytes) → lookup k t.stored.of_entries ≡ bbolt.get k b)

All-each : {A : Type 0} {P : A → Type 0} (xs : List A) → ((x : A) → P x) → All P xs
All-each [] f = tt
All-each (x ∷ xs) f = (f x, All-each xs f)

module _ {B : Type 0} (bbolt : Bucket B) (b : B) where
  start-Agree :
      (t : Tx) → t.is_read_only ≡ false → Stored bbolt b t → Agree bbolt b (bbolt.cursor b) start t
  unfolding apply_dels apply_puts Bolt.addr_state member
  start-Agree t writable h = record {
    writable = writable;
    current = h.same;
    behind =
        All-both (bbolt.cursor b) (λ p x y. h.same p.0 ∙ y) (All-each (bbolt.cursor b) (λ p. tt))
          h.holds;
    unwritten = All-each (bbolt.cursor b) (λ p. tt);
    unnamed = All-each (bbolt.cursor b) (λ p a m. absurd (cc m));
    states = λ a. ap (λ o. state_of_raw o false) (h.same (encode_key (ip_key a)));
  }

  finished :
      (r : Result (State × Tx)) (u : Result Walk)
      → Alike bbolt b [] r u
      → SameScan bbolt
          (do q ← r; ok (q.0.res, q.1))
          (do w ← u; ok (w.shown.res, apply_puts bbolt w.puts (apply_dels bbolt w.dels b)))
  unfolding Alike SameScan
  finished (err e) (err f) a = a
  finished (err e) (ok w) a = a
  finished (ok (s, t)) (err f) a = a
  finished (ok (s, t)) (ok w) a = (ap (λ q. q.res) a.0, a.1.current)

  -- The scan of the bbolt store, which makes its changes after one walk of a cursor, and the scan that makes
  -- them at once and reads each entry again, end in the same error or show the same addresses in the same
  -- order, and leave the same entries. It holds at every time, for a writable transaction and for a bucket
  -- that hold the same entries, addresses and tuples, with the addresses first in both orders.
  pub scan-SameScan :
      (parse_addr : Bytes → Option Addr) (now white_exp : ℤ) (t : Tx)
      → t.is_read_only ≡ false
      → Stored bbolt b t
      → SameScan bbolt
          (scan parse_addr now white_exp t)
          (Bolt.scan bbolt parse_addr now white_exp true b)
  unfolding scan Bolt.scan
  scan-SameScan parse_addr now white_exp t writable h =
      subst
        (λ c.
          SameScan bbolt
            (if c then err read_only else (do
              q ← walk (visit parse_addr now white_exp) (iter 1 t) initial t
              ok (q.0.res, q.1)))
            (Bolt.scan bbolt parse_addr now white_exp true b))
        (sym writable)
        (rw h.order (
          finished _ _ (
            walk-Alike bbolt b parse_addr now white_exp (bbolt.cursor b) start t h.visits
              (start-Agree t writable h))))
