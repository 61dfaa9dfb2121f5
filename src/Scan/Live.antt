-- ===== src/Scan/Live.antt =====
-- No expired entry survives a scan (adapters/db/kv/kv.go).
use greyd_v.Base.{
  Bytes, ◌==◌, ◌&&◌, if◌then◌else◌, Bool-cases, Bool, true, false, List, [], ◌∷◌, Option, none,
  some, ◌≡◌, ◌≢◌, ◌⊎◌, inl, inr, ◌∙◌, sym, ap, arith,
}
use greyd_v.Base.Int.{ℤ, pos, negsuc, leb_ℤ, ltb_ℤ, eq_ℤ, add64, add64-InRange}
use greyd_v.Result.{Result, Result-cases, ok, ◌>>=◌, >>=-eq-ok}
use greyd_v.Core.{Key, ip_key, Entry, EntryInRange, ScanResult}
use greyd_v.Kv.{entries, bucket_for, encode_key, decode_key, encode_entry, decode_entry}
use greyd_v.Kv.RoundTrip.{
  KeyIsValid, decode_key-encode_key, decode_entry-encode_entry, decode_entry-InRange,
}
use greyd_v.Ip.{Addr}
use greyd_v.Memory.{Tx, bucket, lookup, put, get, del, addr_state, iter}
use greyd_v.Memory.Laws.{raw, raw-put_back, raw-del_back, raw-del_self, get-raw, found-inversion}
use greyd_v.Scan.{State, initial, visit, rekey, promote, add_white, scan, walk}
use greyd_v.Scan.Rules.{visit_expired}
use greyd_v.Scan.Snapshot.{In, In-iter}
use greyd_v.Scan.Walk.{Reads, walk_inv}

-- A live entry, or one that the scan is to leave alone.
abbrev pub Fresh : ℤ → Entry → Type 0
Fresh now d = (leb_ℤ d.expire now ≡ false) ⊎ (ltb_ℤ (negsuc 1) d.pcount ≡ false)

entries_typ : (j : Key) → bucket_for j.typ ≡ entries → j.typ ≢ 5
unfolding bucket_for
entries_typ j h e = ground arith

module _ (parse_addr : Bytes → Option Addr) (now white_exp : ℤ) where
  abbrev white : Entry → Entry
  white d = record d { expire = add64 now white_exp }

  -- What is stored under `j` after a round was stored before it, or is the white entry that the
  -- round made.
  abbrev Back : Key → Entry → Tx → Tx → Bytes → Type 0
  Back j d t t' v = (raw j t ≡ some v) ⊎ (v ≡ encode_entry (white d))

  rekey-Back :
      (k j : Key) (d : Entry) (s : State) (t : Tx) (y : State × Tx) {v : Bytes}
      → rekey parse_addr now white_exp k d s t ≡ ok y
      → raw j y.1 ≡ some v
      → Back j d t y.1 v
  unfolding rekey
  rekey-Back k j d s t y h there =
      let addr = k.tuple.ip in
      let (t1, wrote, h1) =
        >>=-eq-ok (put (ip_key addr) (white d) t)
          (λ t1. del k t1 >>= λ r. ok (add_white parse_addr addr s, r.1)) h in
      let ((b, t2), gone, h2) =
        >>=-eq-ok (del k t1) (λ (r : Bool × Tx). ok (add_white parse_addr addr s, r.1)) h1 in
      let same : y.1 ≡ t2 = cc h2 in
      raw-put_back (ip_key addr) j (white d) t wrote (raw-del_back k j t1 gone (rw same at there))

  stay :
      (j : Key) (d : Entry) (s : State) (t : Tx) (y : State × Tx) {v : Bytes}
      → ◌≡◌ {A = Result (State × Tx)} (ok (s, t)) (ok y)
      → raw j y.1 ≡ some v
      → Back j d t y.1 v
  stay j d s t y h there = let same : y.1 ≡ t = cc h in inl (rw same at there)

  promote-Back :
      (k j : Key) (d : Entry) (s : State) (t : Tx) (y : State × Tx) {v : Bytes}
      → promote parse_addr now white_exp k d s t ≡ ok y
      → raw j y.1 ≡ some v
      → Back j d t y.1 v
  unfolding promote
  promote-Back k j d s t y h there = elim (Result-cases (addr_state k.tuple.ip t)) [
    | inr (e, bad) ↦ absurd (cc (rw bad at h))
    | inl (n, known) ↦ elim (Bool-cases (n == 0)) [
      | inl zero ↦ rekey-Back k j d s t y (rw (known, zero) at h) there
      | inr other ↦ stay j d s t y (rw (known, other) at h) there
    ]
  ]

  del-Back :
      (k j : Key) (d : Entry) (s : State) (t : Tx) (y : State × Tx) {v : Bytes}
      → (del k t >>= λ r. ok (s, r.1)) ≡ ok y
      → raw j y.1 ≡ some v
      → Back j d t y.1 v
  del-Back k j d s t y h there =
      let ((b, t2), gone, h2) = >>=-eq-ok (del k t) (λ (r : Bool × Tx). ok (s, r.1)) h in
      let same : y.1 ≡ t2 = cc h2 in inl (raw-del_back k j t gone (rw same at there))

  due-Back :
      (k j : Key) (d : Entry) (s : State) (t : Tx) (y : State × Tx) {v : Bytes}
      → (if k.typ == 3
          then promote parse_addr now white_exp k d s t
          else if k.typ == 1
          then ok (add_white parse_addr k.str s, t)
          else ok (s, t))
        ≡ ok y
      → raw j y.1 ≡ some v
      → Back j d t y.1 v
  due-Back k j d s t y h there = elim (Bool-cases (k.typ == 3)) [
    | inl tuple ↦ promote-Back k j d s t y (rw tuple at h) there
    | inr other ↦ elim (Bool-cases (k.typ == 1)) [
      | inl ip ↦ stay j d _ t y (rw (other, ip) at h) there
      | inr neither ↦ stay j d s t y (rw (other, neither) at h) there
    ]
  ]

  visit-Back :
      (k j : Key) (d : Entry) (s : State) (t : Tx) (y : State × Tx) {v : Bytes}
      → visit parse_addr now white_exp k d s t ≡ ok y
      → raw j y.1 ≡ some v
      → Back j d t y.1 v
  unfolding visit
  visit-Back k j d s t y h there =
      elim (Bool-cases (leb_ℤ d.expire now && ltb_ℤ (negsuc 1) d.pcount)) [
        | inl old ↦ del-Back k j d s t y (rw old at h) there
        | inr kept ↦ elim (Bool-cases (eq_ℤ d.pcount (negsuc 0) && k.typ == 1)) [
          | inl trap ↦ stay j d _ t y (rw (kept, trap) at h) there
          | inr no_trap ↦ elim (Bool-cases (leb_ℤ (pos 0) d.pcount && leb_ℤ d.pass now)) [
            | inr early ↦ stay j d s t y (rw (kept, no_trap, early) at h) there
            | inl due ↦ due-Back k j d s t y (rw (kept, no_trap, due) at h) there
          ]
        ]
      ]

  -- An entry that is read and expired is gone after its round.
  expired_gone :
      (k : Key) (d : Entry) (s : State) (t : Tx) (y : State × Tx)
      → leb_ℤ d.expire now ≡ true
      → ltb_ℤ (negsuc 1) d.pcount ≡ true
      → visit parse_addr now white_exp k d s t ≡ ok y
      → raw k y.1 ≡ none
  expired_gone k d s t y old kind h =
      let h1 = sym (visit_expired parse_addr now white_exp k d s t old kind) ∙ h in
      let ((b, t2), gone, h2) = >>=-eq-ok (del k t) (λ (r : Bool × Tx). ok (s, r.1)) h1 in
      let same : y.1 ≡ t2 = cc h2 in rw same (raw-del_self k t gone)

  Fresh-cases :
      (d : Entry) → Fresh now d ⊎ ((leb_ℤ d.expire now ≡ true) × (ltb_ℤ (negsuc 1) d.pcount ≡ true))
  Fresh-cases d = elim (Bool-cases (leb_ℤ d.expire now)) [
    | inr live ↦ inl (inl live)
    | inl old ↦ elim (Bool-cases (ltb_ℤ (negsuc 1) d.pcount)) [
      | inr kind ↦ inl (inr kind)
      | inl kind ↦ inr (old, kind)
    ]
  ]

  -- Each entry is fresh, or its key is still ahead.
  abbrev Inv : List Bytes → Tx → Type 0
  Inv ks t =
      (j : Key) (v : Bytes) (d : Entry)
      → KeyIsValid j
      → bucket_for j.typ ≡ entries
      → raw j t ≡ some v
      → decode_entry v ≡ ok d
      → In (encode_key j) ks ⊎ Fresh now d

  module _ (future : leb_ℤ (add64 now white_exp) now ≡ false) where
    white-Fresh :
        (v : Bytes) (d e : Entry)
        → EntryInRange d
        → v ≡ encode_entry (white d)
        → decode_entry v ≡ ok e
        → Fresh now e
    white-Fresh v d e range made read =
        let kept : EntryInRange (white d) = record {
          first = range.first;
          pass = range.pass;
          expire = add64-InRange now white_exp;
          bcount = range.bcount;
          pcount = range.pcount;
        } in
        let back = decode_entry-encode_entry (white d) kept in
        let same : white d ≡ e = cc (back, ap decode_entry made, read) in inl (rw (← same) future)

    -- The entry that the round itself read is fresh, or gone.
    visited :
        (r : Bytes) (s s' : State) (t t' : Tx) (k : Key) (d : Entry) (j : Key) (v : Bytes)
        (e : Entry)
        → Reads t r k d
        → visit parse_addr now white_exp k d s t ≡ ok (s', t')
        → KeyIsValid j
        → raw j t ≡ some v
        → raw j t' ≡ some v
        → decode_entry v ≡ ok e
        → encode_key j ≡ r
        → Fresh now e
    visited r s s' t t' k d j v e reads ran hj before there read here =
        let kj : k ≡ j = cc (ap decode_key here, decode_key-encode_key j hj, reads.key_is) in
        let stored : raw j t ≡ some reads.value = rw (here, ← kj) reads.stored in
        let one : v ≡ reads.value = cc (before, stored) in
        let de : d ≡ e = cc (reads.entry_is, read, one) in
        elim (Fresh-cases d) [
          | inl fresh ↦ rw (← de) fresh
          | inr (old, kind) ↦
              let gone : raw j t' ≡ none = rw (← kj) (expired_gone k d s t (s', t') old kind ran) in
              absurd (cc (gone, there))
        ]

    step-Inv :
        (r : Bytes) (ks : List Bytes) (s s' : State) (t t' : Tx) (k : Key) (d : Entry)
        → Reads t r k d
        → visit parse_addr now white_exp k d s t ≡ ok (s', t')
        → Inv (r ∷ ks) t
        → Inv ks t'
    step-Inv r ks s s' t t' k d reads ran inv j v e hj hb there read =
        elim (visit-Back k j d s t (s', t') ran there) [
          | inr made ↦
              inr (white-Fresh v d e (decode_entry-InRange reads.value d reads.entry_is) made read)
          | inl before ↦ elim (inv j v e hj hb before read) [
            | inr done ↦ inr done
            | inl (inr ahead) ↦ inl ahead
            | inl (inl now_read) ↦
                inr (visited r s s' t t' k d j v e reads ran hj before there read now_read)
          ]
        ]

    skip-Inv :
        (r : Bytes) (ks : List Bytes) (s : State) (t : Tx) (k : Key)
        → decode_key r ≡ ok k
        → lookup r (bucket t.stored (bucket_for k.typ)) ≡ none
        → Inv (r ∷ ks) t
        → Inv ks t
    skip-Inv r ks s t k key gone inv j v e hj hb there read = elim (inv j v e hj hb there read) [
      | inr done ↦ inr done
      | inl (inr ahead) ↦ inl ahead
      | inl (inl here) ↦
          let kj : k ≡ j = cc (ap decode_key here, decode_key-encode_key j hj, key) in
          let missing : raw j t ≡ none = rw (here, ← kj) gone in absurd (cc (missing, there))
    ]

    begin-Inv : (t : Tx) → Inv (iter 1 t) t
    begin-Inv t j v e hj hb there read = inl (In-iter (encode_key j) v t (rw hb at there))

    -- Where a white entry's new expiry lies after now: after a scan that succeeds, every entry that can
    -- be read under a valid key of the entries bucket has not expired, or carries one of the
    -- sentinels of spamtraps and domains.
    pub scan-Fresh :
        (t t' : Tx) (res : ScanResult)
        → scan parse_addr now white_exp t ≡ ok (res, t')
        → (j : Key) (d : Entry) → KeyIsValid j
        → bucket_for j.typ ≡ entries
        → get j t' ≡ ok (some d)
        → Fresh now d
    unfolding scan
    scan-Fresh t t' res h j d hj hb g = elim (Bool-cases t.is_read_only) [
      | inl locked ↦ absurd (cc (rw locked at h))
      | inr open_ ↦
          let (y, ran, e) =
            >>=-eq-ok (walk (visit parse_addr now white_exp) (iter 1 t) initial t)
              (λ (r : State × Tx). ok (r.0.res, r.1)) (simp open_ at h) in
          let same : y.1 ≡ t' = cc e in
          let inv : Inv [] y.1 =
            walk_inv (visit parse_addr now white_exp) (λ ks s x. Inv ks x) skip-Inv step-Inv
              (iter 1 t) initial y.0 t y.1 ran (begin-Inv t) in
          let (v, there, read) =
            found-inversion (raw j t') d (sym (get-raw j t' (entries_typ j hb)) ∙ g) in
          elim (inv j v d hj hb (rw same there) read) [
            | inl ahead ↦ absurd ahead
            | inr fresh ↦ fresh
          ]
    ]
