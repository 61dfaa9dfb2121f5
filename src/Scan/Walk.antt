-- ===== src/Scan/Walk.antt =====
-- An invariant of the scan's loop over the snapshot.
use mathlib.Core.Path.{subst}
use greyd_v.Base.{Bytes, List, [], ◌∷◌, none, some, Option-cases, ◌≡◌, ◌⊎◌, inl, inr}
use greyd_v.Result.{Result, ok, ◌>>=◌, >>=-eq-ok}
use greyd_v.Core.{Key, Entry}
use greyd_v.Kv.{bucket_for, decode_key, decode_entry}
use greyd_v.Memory.{Tx, bucket, lookup}
use greyd_v.Scan.{walk, round, at_key}

-- What the loop reads for one key of the snapshot.
pub record Reads (t : Tx) (r : Bytes) (k : Key) (d : Entry) : Type 0 where
  pub value : Bytes
  pub key_is : decode_key r ≡ ok k
  pub stored : lookup r (bucket t.stored (bucket_for k.typ)) ≡ some value
  pub entry_is : decode_entry value ≡ ok d

module _ {S : Type 0} (body : Key → Entry → S → Tx → Result (S × Tx)) where
  -- A round either skips a key that is gone, or runs the body on the entry that it reads.
  abbrev Round : Bytes → (S → Tx → Result (S × Tx)) → S → Tx → S × Tx → Type 0
  Round r later s t x =
      (k : Key) × (decode_key r ≡ ok k)
      × (((lookup r (bucket t.stored (bucket_for k.typ)) ≡ none) × (later s t ≡ ok x))
          ⊎ ((d : Entry) × (y : S × Tx) × Reads t r k d
              × (body k d s t ≡ ok y)
              × (later y.0 y.1 ≡ ok x)))

  round_inversion :
      (r : Bytes) (later : S → Tx → Result (S × Tx)) (s : S) (t : Tx) {x : S × Tx}
      → round body r later s t ≡ ok x
      → Round r later s t x
  unfolding round at_key
  round_inversion r later s t {x} h =
      let (k, key, h1) =
        >>=-eq-ok (decode_key r)
          (λ k. at_key body k later (lookup r (bucket t.stored (bucket_for k.typ))) s t) h in
      elim (Option-cases (lookup r (bucket t.stored (bucket_for k.typ)))) [
        | inl gone ↦ (k, key, inl (gone, rw gone at h1))
        | inr (v, there) ↦
            let h2 : at_key body k later (some v) s t ≡ ok x = rw there at h1 in
            let (d, read, h3) =
              >>=-eq-ok (decode_entry v) (λ d. body k d s t >>= λ r. later r.0 r.1) h2 in
            let (y, ran, h4) = >>=-eq-ok (body k d s t) (λ r. later r.0 r.1) h3 in
            let reads : Reads t r k d = record {
              value = v;
              key_is = key;
              stored = there;
              entry_is = read;
            } in
            (k, key, inr (d, y, reads, ran, h4))
      ]

module _ {S : Type 0} (body : Key → Entry → S → Tx → Result (S × Tx))
    (P : List Bytes → S → Tx → Type 0)
    (skip : (r : Bytes) (ks : List Bytes) (s : S) (t : Tx) (k : Key)
      → decode_key r ≡ ok k
      → lookup r (bucket t.stored (bucket_for k.typ)) ≡ none
      → P (r ∷ ks) s t
      → P ks s t)
    (step : (r : Bytes) (ks : List Bytes) (s s' : S) (t t' : Tx) (k : Key) (d : Entry)
      → Reads t r k d
      → body k d s t ≡ ok (s', t')
      → P (r ∷ ks) s t
      → P ks s' t') where
  -- The invariant speaks of the part of the snapshot that is still ahead.
  pub walk_inv :
      (ks : List Bytes) (s s' : S) (t t' : Tx)
      → walk body ks s t ≡ ok (s', t')
      → P ks s t
      → P [] s' t'
  unfolding walk
  walk_inv [] s s' t t' h p = ended h p
    where
      ended : ◌≡◌ {A = Result (S × Tx)} (ok (s, t)) (ok (s', t')) → P [] s t → P [] s' t'
      ended e q =
          let es : s ≡ s' = cc in
          let et : t ≡ t' = cc in subst (λ x. P [] x t') es (subst (λ y. P [] s y) et q)
  walk_inv (r ∷ ks) s s' t t' h p =
      let (k, key, which) = round_inversion body r (walk body ks) s t h in
      elim which [
        | inl (gone, later) ↦ walk_inv ks s s' t t' later (skip r ks s t k key gone p)
        | inr (d, y, reads, ran, later) ↦
            walk_inv ks y.0 s' y.1 t' later (step r ks s y.0 t y.1 k d reads ran p)
      ]
