-- ===== src/Scan/Rules.antt =====
-- What one round of the scan does to an entry, on every branch.
use greyd_v.Base.{
  Bytes, Bool, true, false, Option, none, some, Option-cases, inl, inr, ◌≡◌, ◌≢◌, ◌∙◌, refl, sym,
  ap, arith,
}
use greyd_v.Base.Int.{ℤ, pos, negsuc, leb_ℤ, ltb_ℤ, add64, add64-InRange}
use greyd_v.Result.{ok, ◌>>=◌}
use greyd_v.Core.{Tuple, Key, ip_key, tuple_key, Entry, EntryInRange}
use greyd_v.Kv.RoundTrip.{KeyIsValid}
use greyd_v.Ip.{Addr}
use greyd_v.Memory.{Tx, put, get, del, addr_state}
use greyd_v.Memory.Laws.{raw, get-put_self, get-put_ne, get-del_self, get-del_ne}
use greyd_v.Scan.{State, visit, promote, add_white}

pub put-total :
    (k : Key) (d : Entry) (t : Tx)
    → t.is_read_only ≡ false
    → (t' : Tx) × (put k d t ≡ ok t') × (t'.is_read_only ≡ false)
unfolding put
put-total k d t w = rw w (_, refl, refl)

pub del-total :
    (k : Key) (t : Tx)
    → t.is_read_only ≡ false
    → (b : Bool) × (t' : Tx) × (del k t ≡ ok (b, t')) × (t'.is_read_only ≡ false)
unfolding del
del-total k t w = elim (Option-cases (raw k t)) [
  | inl gone ↦ rw (w, gone) (_, _, refl, refl)
  | inr (v, there) ↦ rw (w, there) (_, _, refl, refl)
]

-- The state of an address: 1 exactly for a trapped entry.
pub addr_state-none : (ip : Bytes) (t : Tx) → get (ip_key ip) t ≡ ok none → addr_state ip t ≡ ok 0
unfolding addr_state
addr_state-none ip t h = rw h

pub ip_key-KeyIsValid : (ip : Bytes) → KeyIsValid (ip_key ip)
ip_key-KeyIsValid ip = inr (omega arith, omega arith, refl)

pub key_ne : (k j : Key) → k.typ ≢ j.typ → k ≢ j
key_ne k j h e = h (ap (λ (x : Key). x.typ) e)

module _ (parse_addr : Bytes → Option Addr) (now white_exp : ℤ) where
  -- The branch of `visit` for a live entry whose pass time has come.
  visit_due :
      (gt : Tuple) (d : Entry) (s : State) (t : Tx)
      → leb_ℤ d.expire now ≡ false
      → leb_ℤ (pos 0) d.pcount ≡ true
      → leb_ℤ d.pass now ≡ true
      → visit parse_addr now white_exp (tuple_key gt) d s t
        ≡ promote parse_addr now white_exp (tuple_key gt) d s t
  unfolding visit
  visit_due gt d s t live counted due = ground arith

  promote_free :
      (k : Key) (d : Entry) (s : State) (t : Tx) {t1 t2 : Tx} {b : Bool}
      → get (ip_key k.tuple.ip) t ≡ ok none
      → put (ip_key k.tuple.ip) (record d { expire = add64 now white_exp }) t ≡ ok t1
      → del k t1 ≡ ok (b, t2)
      → promote parse_addr now white_exp k d s t ≡ ok (add_white parse_addr k.tuple.ip s, t2)
  unfolding promote
  promote_free k d s t free done1 done2 = rw (addr_state-none k.tuple.ip t free, done1, done2)

  -- A grey tuple whose pass time has come and that has not expired, from an address with no entry of
  -- its own, is replaced by a white entry of the address that lives for `white_exp`; nothing else
  -- in the database changes.
  pub visit_promotes :
      (gt : Tuple) (d : Entry) (s : State) (t : Tx)
      → t.is_read_only ≡ false
      → KeyIsValid (tuple_key gt)
      → EntryInRange d
      → leb_ℤ d.expire now ≡ false
      → leb_ℤ (pos 0) d.pcount ≡ true
      → leb_ℤ d.pass now ≡ true
      → get (ip_key gt.ip) t ≡ ok none
      → (t' : Tx) × (visit parse_addr now white_exp (tuple_key gt) d s t
          ≡ ok (add_white parse_addr gt.ip s, t'))
        × (get (ip_key gt.ip) t' ≡ ok (some (record d { expire = add64 now white_exp })))
        × (get (tuple_key gt) t' ≡ ok none)
        × ((j : Key)
            → KeyIsValid j
            → j.typ ≢ 5
            → j ≢ ip_key gt.ip
            → j ≢ tuple_key gt
            → get j t' ≡ get j t)
  visit_promotes gt d s t w valid range live counted due free =
      let k = tuple_key gt in
      let white : Entry = record d { expire = add64 now white_exp } in
      let (t1, done1, w1) = put-total (ip_key gt.ip) white t w in
      let (b, t2, done2, w2) = del-total k t1 w1 in
      let kept : EntryInRange white = record {
        first = range.first;
        pass = range.pass;
        expire = add64-InRange now white_exp;
        bcount = range.bcount;
        pcount = range.pcount;
      } in
      let ip_ok = ip_key-KeyIsValid gt.ip in
      (
        t2,
        visit_due gt d s t live counted due ∙ promote_free k d s t free done1 done2,
        get-del_ne k (ip_key gt.ip) t1 valid ip_ok (λ e. absurd (omega arith))
              (key_ne k (ip_key gt.ip) (λ e. absurd (omega arith))) done2
            ∙ get-put_self (ip_key gt.ip) white t (λ e. absurd (omega arith)) kept done1,
        get-del_self k t1 (λ e. absurd (omega arith)) done2,
        λ j hj nj ni nk.
            get-del_ne k j t1 valid hj nj (λ e. nk (sym e)) done2
            ∙ get-put_ne (ip_key gt.ip) j white t ip_ok hj nj (λ e. ni (sym e)) done1,
      )

  -- An entry whose expiry has come is deleted, whatever its pass time; spamtraps and domains are
  -- kept by their sentinel.
  pub visit_expired :
      (k : Key) (d : Entry) (s : State) (t : Tx)
      → leb_ℤ d.expire now ≡ true
      → ltb_ℤ (negsuc 1) d.pcount ≡ true
      → visit parse_addr now white_exp k d s t ≡ (do r ← del k t; ok (s, r.1))
  unfolding visit
  visit_expired k d s t old kind = ground arith
