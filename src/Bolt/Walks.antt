-- ===== src/Bolt/Walks.antt =====
-- The rounds of the scan of adapters/db/bolt/bolt.go against those of the scan of adapters/db/kv/kv.go.
use mathlib.Core.Path.{subst}
use greyd_v.Base.{
  Bytes, bytes_eq, ◌==◌, if◌then◌else◌, true, false, ◌&&◌, List, [], ◌∷◌, ◌++◌, Option, ◌≡◌, refl,
  ◌∙◌, arith, All, inl, inr, Bool-cases, map, ==_iff,
}
use greyd_v.Base.Int.{ℤ, pos, eq_ℤ, leb_ℤ, ltb_ℤ, add64, add64-InRange}
use greyd_v.Result.{Result, ok, err, ◌>>=◌, Result-cases}
use greyd_v.Core.{
  Key, Entry, EntryInRange, ip_key, key_ip, key_tuple, pcount_trapped, pcount_spamtrap,
}
use greyd_v.Ip.{Addr}
use greyd_v.Kv.{encode_key, decode_key, decode_entry}
use greyd_v.Kv.RoundTrip.{decode_entry-InRange}
use greyd_v.Memory.{Tx, put, del, addr_state}
use greyd_v.Scan.{State, add_white, visit, promote, rekey, round, at_key, walk}
use greyd_v.Scan.Rules.{del-total}
use greyd_v.Bolt
use greyd_v.Bolt.{Bucket, Walk, start, member, state_of_raw, apply_dels, apply_puts}
use greyd_v.Bolt.Entries.{InEntries, addr_state-entries, bucket_for_entries}
use greyd_v.Bolt.Rounds.{Agree, Alike, if-Alike, shown_Agree, deleted_Agree}
use greyd_v.Bolt.Rekeyed.{rekeyed_Agree}

-- A key that a cursor visits before the others: of an address or a tuple, as it is encoded; behind a tuple
-- no address.
abbrev pub Visited : Bytes → List (Bytes × Bytes) → Key → Type 0
Visited raw rest k =
    (encode_key k ≡ raw)
    × InEntries k
    × (k.typ ≡ 3 → All (λ p. (a : Bytes) → bytes_eq (encode_key (ip_key a)) p.0 ≡ false) rest)

-- What a cursor visits: such keys, each once.
unfoldable pub Visits : List (Bytes × Bytes) → Type 0
Visits [] = Unit
Visits ((raw, v) ∷ rest) =
    ((k : Key) → decode_key raw ≡ ok k → Visited raw rest k)
    × All (λ p. bytes_eq raw p.0 ≡ false) rest
    × Visits rest

white-InRange :
    (d : Entry) (now white_exp : ℤ)
    → EntryInRange d
    → EntryInRange (record d { expire = add64 now white_exp })
white-InRange d now white_exp i = record {
  first = i.first;
  pass = i.pass;
  expire = add64-InRange now white_exp;
  bcount = i.bcount;
  pcount = i.pcount;
}

put-total :
    (k : Key) (d : Entry) (t : Tx)
    → t.is_read_only ≡ false
    → (t' : Tx) × (put k d t ≡ ok t') × (t'.is_read_only ≡ false)
unfolding put
put-total k d t w = rw w (_, refl, refl)

module _ {B : Type 0} (bbolt : Bucket B) (b : B) (parse_addr : Bytes → Option Addr)
    (now white_exp : ℤ) where
  -- A tuple that has passed.
  promote-Alike :
      (k : Key) (v : Bytes) (d : Entry) (rest : List (Bytes × Bytes)) (w : Walk) (t : Tx)
      → k.typ ≡ 3
      → EntryInRange d
      → leb_ℤ (pos 0) d.pcount ≡ true
      → All (λ p. bytes_eq (encode_key k) p.0 ≡ false) rest
      → All (λ p. (a : Bytes) → bytes_eq (encode_key (ip_key a)) p.0 ≡ false) rest
      → Agree bbolt b ((encode_key k, v) ∷ rest) w t
      → Alike bbolt b rest (promote parse_addr now white_exp k d w.shown t) (do
        state ← Bolt.addr_state bbolt k.tuple.ip b w
        ok (Bolt.promote bbolt parse_addr now white_exp (encode_key k) k d w state))
  unfolding promote rekey Bolt.promote Alike
  promote-Alike k v d rest w t typ i white apart others g =
      let same : addr_state k.tuple.ip t ≡ Bolt.addr_state bbolt k.tuple.ip b w =
        addr_state-entries k.tuple.ip t ∙ g.states k.tuple.ip in
      elim (Result-cases (Bolt.addr_state bbolt k.tuple.ip b w)) [
        | inr (x, h) ↦ rw (same ∙ h, h) refl
        | inl (st, h) ↦
            rw (same ∙ h, h)
              (elim (Bool-cases (st == 0)) [
                | inr there ↦ rw there (refl, shown_Agree bbolt b _ rest w t w.shown g)
                | inl gone ↦
                    let white_entry : Entry = record d { expire = add64 now white_exp } in
                    let (t1, h1, w1) = put-total (ip_key k.tuple.ip) white_entry t g.writable in
                    let (found, t2, h2, w2) = del-total k t1 w1 in
                    rw (gone, h1, h2)
                      (
                        refl,
                        rekeyed_Agree bbolt b k v k.tuple.ip white_entry
                            (add_white parse_addr k.tuple.ip w.shown) rest w t t1 t2 found typ
                            (white-InRange d now white_exp i) white apart others g h1 h2 w2,
                      )
              ])
      ]

  shown-Alike :
      (p : Bytes × Bytes) (rest : List (Bytes × Bytes)) (w : Walk) (t : Tx) (s : State)
      → Agree bbolt b (p ∷ rest) w t
      → Alike bbolt b rest (ok (s, t)) (ok (record w { shown = s }))
  unfolding Alike
  shown-Alike p rest w t s g = (refl, shown_Agree bbolt b p rest w t s g)

  expired-Alike :
      (k : Key) (v : Bytes) (rest : List (Bytes × Bytes)) (w : Walk) (t : Tx)
      → InEntries k
      → All (λ p. bytes_eq (encode_key k) p.0 ≡ false) rest
      → Agree bbolt b ((encode_key k, v) ∷ rest) w t
      → Alike bbolt b rest
          (do r ← del k t; ok (w.shown, r.1))
          (ok (record w {
            dels = w.dels ++ (encode_key k ∷ []);
            deleted_ip = if k.typ == key_ip then k.str ∷ w.deleted_ip else w.deleted_ip;
          }))
  unfolding Alike
  expired-Alike k v rest w t i apart g =
      let (found, t', h, still) = del-total k t g.writable in
      rw h (refl, deleted_Agree bbolt b k v rest w t t' found i apart g h still)

  visit-Alike :
      (k : Key) (v : Bytes) (d : Entry) (rest : List (Bytes × Bytes)) (w : Walk) (t : Tx)
      → InEntries k
      → EntryInRange d
      → All (λ p. bytes_eq (encode_key k) p.0 ≡ false) rest
      → (k.typ ≡ 3 → All (λ p. (a : Bytes) → bytes_eq (encode_key (ip_key a)) p.0 ≡ false) rest)
      → Agree bbolt b ((encode_key k, v) ∷ rest) w t
      → Alike bbolt b rest
          (visit parse_addr now white_exp k d w.shown t)
          (Bolt.visit bbolt parse_addr now white_exp (encode_key k) k d b w)
  unfolding visit Bolt.visit
  visit-Alike k v d rest w t i range apart others g =
      if-Alike bbolt b rest (leb_ℤ d.expire now && ltb_ℤ pcount_spamtrap d.pcount) _ _ _ _
        (λ _. expired-Alike k v rest w t i apart g)
        λ _.
          if-Alike bbolt b rest (eq_ℤ d.pcount pcount_trapped && k.typ == key_ip) _ _ _ _
            (λ _. shown-Alike (encode_key k, v) rest w t _ g)
            λ _.
              if-Alike bbolt b rest (leb_ℤ (pos 0) d.pcount && leb_ℤ d.pass now) _ _ _ _
                (λ passed.
                  if-Alike bbolt b rest (k.typ == key_tuple) _ _ _ _
                    (λ tuple.
                      let typ = (==_iff k.typ 3).0 tuple in
                      promote-Alike k v d rest w t typ range (ground (arith, passed)) apart
                        (others typ) g)
                    λ _.
                      if-Alike bbolt b rest (k.typ == key_ip) _ _ _ _
                        (λ _. shown-Alike (encode_key k, v) rest w t _ g)
                        λ _. shown-Alike (encode_key k, v) rest w t _ g)
                λ _. shown-Alike (encode_key k, v) rest w t _ g

  visit_raw-Alike :
      (k : Key) (raw v : Bytes) (d : Entry) (rest : List (Bytes × Bytes)) (w : Walk) (t : Tx)
      → encode_key k ≡ raw
      → InEntries k
      → EntryInRange d
      → All (λ p. bytes_eq raw p.0 ≡ false) rest
      → (k.typ ≡ 3 → All (λ p. (a : Bytes) → bytes_eq (encode_key (ip_key a)) p.0 ≡ false) rest)
      → Agree bbolt b ((raw, v) ∷ rest) w t
      → Alike bbolt b rest
          (visit parse_addr now white_exp k d w.shown t)
          (Bolt.visit bbolt parse_addr now white_exp raw k d b w)
  visit_raw-Alike k raw v d rest w t same i range apart others g =
      subst
        (λ r.
          All (λ p. bytes_eq r p.0 ≡ false) rest
          → Agree bbolt b ((r, v) ∷ rest) w t
          → Alike bbolt b rest (visit parse_addr now white_exp k d w.shown t)
              (Bolt.visit bbolt parse_addr now white_exp r k d b w))
        same (λ apart' g'. visit-Alike k v d rest w t i range apart' others g') apart g

  -- A round before the others.
  rest_Alike :
      (rest : List (Bytes × Bytes)) (r : Result (State × Tx)) (u : Result Walk)
      → Alike bbolt b rest r u
      → ((w : Walk) (t : Tx)
          → Agree bbolt b rest w t
          → Alike bbolt b []
              (walk (visit parse_addr now white_exp) (map (λ p. p.0) rest) w.shown t)
              (Bolt.walk bbolt parse_addr now white_exp b rest w))
      → Alike bbolt b []
          (do q ← r; walk (visit parse_addr now white_exp) (map (λ p. p.0) rest) q.0 q.1)
          (do w ← u; Bolt.walk bbolt parse_addr now white_exp b rest w)
  unfolding Alike
  rest_Alike rest (err e) (err f) a next = a
  rest_Alike rest (err e) (ok w) a next = absurd (cc a)
  rest_Alike rest (ok (s, t)) (err f) a next = absurd (cc a)
  rest_Alike rest (ok (s, t)) (ok w) a next = rw a.0 (next w t a.1)

  -- All the rounds: what a walk over the entries at once leaves, and one that defers.
  pub walk-Alike :
      (rest : List (Bytes × Bytes)) (w : Walk) (t : Tx)
      → Visits rest
      → Agree bbolt b rest w t
      → Alike bbolt b []
          (walk (visit parse_addr now white_exp) (map (λ p. p.0) rest) w.shown t)
          (Bolt.walk bbolt parse_addr now white_exp b rest w)
  unfolding walk Bolt.walk round at_key Visits Alike
  walk-Alike [] w t v g = (refl, g)
  walk-Alike ((raw, val) ∷ rest) w t v g = elim (Result-cases (decode_key raw)) [
    | inr (x, h) ↦ rw h refl
    | inl (k, h) ↦
        let (same, i, others) = v.0 k h in
        rw (h, bucket_for_entries k i, g.behind.0)
          (elim (Result-cases (decode_entry val)) [
            | inr (x, e) ↦ rw e refl
            | inl (d, e) ↦ rw e (
                rest_Alike rest _ _
                  (visit_raw-Alike k raw val d rest w t same i (decode_entry-InRange val d e) v.1
                    others g)
                  (λ w' t' g'. walk-Alike rest w' t' v.2 g'))
          ])
  ]
