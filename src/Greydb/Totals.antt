-- ===== src/Greydb/Totals.antt =====
-- What a run of greydb counts: `dbUpdate` of internal/app/greydb/greydb.go.
use greyd_v.Base.{
  ℕ, zero, suc, ◌+◌, ◌≤◌, Bytes, Bool, true, false, List, [], ◌∷◌, Option, none, some, ◌≡◌, refl,
  arith, take, drop, length, length-append, map, ap, ◌∙◌,
}
use greyd_v.Base.Int.{ℤ}
use greyd_v.Core.{Key, Entry}
use greyd_v.Ip.{Addr}
use greyd_v.Memory.{Buckets, Tx, Store, update, kept}
use greyd_v.Greydb.Options.{EntryType, type_white, type_traphit, type_spamtrap, type_domain}
use greyd_v.Greydb.{
  tell, Outcome, update_batch, batches, parse_key, note, batch_round, apply_batch, apply_key,
  after_batch, update_batches, db_update,
}

-- The keys of all the batches.
total : List (List Bytes) → ℕ
total [] = 0
total (batch ∷ rest) = length batch + total rest

length-take-drop : (n : ℕ) (xs : List Bytes) → length (take n xs) + length (drop n xs) ≡ length xs
length-take-drop zero xs = omega arith
length-take-drop (suc n) [] = omega arith
length-take-drop (suc n) (x ∷ xs) = omega (arith, length-take-drop n xs)

length-drop_le : (n : ℕ) (xs : List Bytes) → length (drop n xs) ≤ length xs
length-drop_le zero xs = omega arith
length-drop_le (suc n) [] = omega arith
length-drop_le (suc n) (x ∷ xs) = omega (arith, length-drop_le n xs)

total-batches : (n : ℕ) (keys : List Bytes) → length keys ≤ n → total (batches n keys) ≡ length keys
unfolding total batches
total-batches zero [] h = refl
total-batches zero (k ∷ ks) h = absurd (omega (arith, h))
total-batches (suc n) [] h = refl
total-batches (suc n) (k ∷ ks) h =
    ap (◌+◌ (length (take update_batch (k ∷ ks))))
      (total-batches n (drop update_batch (k ∷ ks)) (omega (arith, h, length-drop_le 999 ks)))
    ∙ length-take-drop update_batch (k ∷ ks)

length-map : {A B : Type 0} (f : A → B) (xs : List A) → length (map f xs) ≡ length xs
length-map f [] = refl
length-map f (x ∷ xs) = ap suc (length-map f xs)

-- The types of key that other hosts are told of.
abbrev pub Announced : EntryType → Type 0
Announced type_white = Unit
Announced type_traphit = Unit
Announced type_spamtrap = true ≡ false
Announced type_domain = true ≡ false

length-tell :
    (typ : EntryType) (now : ℤ) (is_del : Bool) (applied : List (Bytes × Entry))
    → Announced typ
    → length (tell typ now is_del applied) ≡ length applied
length-tell type_white now is_del applied a = length-map _ applied
length-tell type_traphit now is_del applied a = length-map _ applied
length-tell type_spamtrap now is_del applied a = absurd (cc a)
length-tell type_domain now is_del applied a = absurd (cc a)

abbrev pub writable : Buckets → Store
writable b = record { db = b; is_read_only = false }

abbrev pub read_only_store : Buckets → Store
read_only_store b = record { db = b; is_read_only = true }

counted : Outcome → ℕ
counted o = o.failed + length o.applied

counted-note :
    (key : Bytes) (d : Option Entry) (o : Outcome) → counted (note key d o) ≡ suc (counted o)
unfolding counted
counted-note key none o = omega arith
counted-note key (some d) o = omega arith

module _ (parse_addr : Bytes → Option Addr) (is_del : Bool) (typ : EntryType)
    (now white_exp trap_exp : ℤ) where
  counted-batch_round :
      (o : Option (Key × Bytes)) (rest : Tx → Outcome × Tx) (n : ℕ)
      → ((t : Tx) → counted (rest t).0 ≡ n)
      → (t : Tx)
      → counted (batch_round parse_addr is_del typ now white_exp trap_exp o rest t).0 ≡ suc n
  unfolding batch_round
  counted-batch_round none rest n h t = counted-note [] none (rest t).0 ∙ ap suc (h t)
  counted-batch_round (some (k, key)) rest n h t =
      let a = apply_key k is_del typ now white_exp trap_exp t in
      counted-note key a.0 (rest a.1).0 ∙ ap suc (h a.1)

  counted-apply_batch :
      (keys : List Bytes) (t : Tx)
      → counted (apply_batch parse_addr is_del typ now white_exp trap_exp keys t).0 ≡ length keys
  unfolding apply_batch counted
  counted-apply_batch [] t = omega arith
  counted-apply_batch (key ∷ keys) t =
      counted-batch_round (parse_key parse_addr key typ) _ (length keys) (counted-apply_batch keys)
        t

  -- The keys of the batches that a writable store takes, each failed or announced.
  update_batches-counted :
      (bs : List (List Bytes)) (b : Buckets)
      → Announced typ
      → (update_batches parse_addr is_del typ now white_exp trap_exp true bs (writable b)).failed
          + length
              (update_batches parse_addr is_del typ now white_exp trap_exp true bs
                (writable b)).told
        ≡ total bs
  unfolding update_batches after_batch update kept total counted
  update_batches-counted [] b a = omega arith
  update_batches-counted (batch ∷ rest) b a =
      let t : Tx = record { stored = b; is_read_only = false } in
      let ran = apply_batch parse_addr is_del typ now white_exp trap_exp batch t in
      let later =
        update_batches parse_addr is_del typ now white_exp trap_exp true rest
          (writable ran.1.stored) in
      omega (
        arith,
        length-append (tell typ now is_del ran.0.applied) later.told,
        length-tell typ now is_del ran.0.applied a,
        counted-apply_batch batch t,
        update_batches-counted rest ran.1.stored a,
      )

  update_batches-refused :
      (has_syncer : Bool) (bs : List (List Bytes)) (b : Buckets)
      → update_batches parse_addr is_del typ now white_exp trap_exp has_syncer bs
          (read_only_store b)
        ≡ record { failed = total bs; told = []; store = read_only_store b }
  unfolding update_batches after_batch update total
  update_batches-refused has_syncer [] b = refl
  update_batches-refused has_syncer (batch ∷ rest) b =
      rw (update_batches-refused has_syncer rest b) refl

  -- `dbUpdate`, however many batches its keys make. On a store open for writing, with a syncer, and for
  -- addresses: the failed keys that it returns and the announcements together are as many as the keys.
  -- On a read-only store: every key failed, nothing is announced, and the store is as it was.
  pub db_update-counted :
      (keys : List Bytes) (b : Buckets)
      → Announced typ
      → ((db_update parse_addr is_del typ now white_exp trap_exp true keys (writable b)).failed
            + length
                (db_update parse_addr is_del typ now white_exp trap_exp true keys (writable b)).told
          ≡ length keys)
        × (db_update parse_addr is_del typ now white_exp trap_exp true keys (read_only_store b)
            ≡ record { failed = length keys; told = []; store = read_only_store b })
  unfolding db_update
  db_update-counted keys b a =
      let all = total-batches (length keys) keys (omega arith) in
      (
        update_batches-counted (batches (length keys) keys) b a ∙ all,
        update_batches-refused true (batches (length keys) keys) b
            ∙ ap (λ n. record { failed = n; told = []; store = read_only_store b }) all,
      )
