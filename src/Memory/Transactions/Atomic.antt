-- ===== src/Memory/Transactions/Atomic.antt =====
-- A transaction that fails changes nothing, and one that succeeds is seen by the next one.
use greyd_v.Base.{Bool, true, false, none, some, ◌≡◌, ◌≢◌, inl, inr, sym, ap, ◌∙◌, arith}
use greyd_v.Result.{Result, ok, ◌>>=◌, >>=-eq-ok, Result-cases}
use greyd_v.Core.{Key, Entry, EntryInRange}
use greyd_v.Kv.RoundTrip.{KeyIsValid}
use greyd_v.Memory.{Tx, Store, put, del, view, update, kept}
use greyd_v.Memory.Laws.{get-put_self, get-put_ne, get-del_self, get-del_ne, get_mode}
use greyd_v.Memory.Transactions.{core_get, core_put, core_del}

-- The transaction that `update` opens on a store.
abbrev begin : Store → Tx
begin s = record { stored = s.db; is_read_only = false }

-- A transaction that returns no error ran on a store that may be written, and is kept.
pub update-eq-ok :
    {A : Type 0} (fn : Tx → Result (A × Tx)) (s : Store) (a : A)
    → (update false fn s).0 ≡ ok a
    → (t : Tx) × (fn (begin s) ≡ ok (a, t)) × ((update false fn s).1 ≡ record s { db = t.stored })
unfolding update kept
update-eq-ok fn s a h = elim (Result-cases (fn (begin s))) [
  | inl (p, e) ↦ (p.1, ground arith, ground arith)
  | inr (x, e) ↦ absurd (ground arith)
]

-- After a successful `Put` of an entry of 64-bit integers under a valid key that is no domain part,
-- `Get` of the key returns the entry, and `Get` of another such key returns what it returned before.
pub core_get-core_put :
    (k j : Key) (d : Entry) (s : Store)
    → k.typ ≢ 5
    → j.typ ≢ 5
    → KeyIsValid k
    → KeyIsValid j
    → EntryInRange d
    → (core_put false k d s).0 ≡ ok tt
    → k ≢ j
    → (core_get false k (core_put false k d s).1 ≡ ok (some d))
      × (core_get false j (core_put false k d s).1 ≡ core_get false j s)
unfolding core_put core_get view
core_get-core_put k j d s nk nj hk hj r h ne =
    let (t, done, after) = update-eq-ok (λ t. do t' ← put k d t; ok (tt, t')) s tt h in
    let (t', written, same) = >>=-eq-ok (put k d (begin s)) (λ t'. ok (tt, t')) done in
    let one : t' ≡ t = cc same in
    let stored : put k d (begin s) ≡ ok t = written ∙ ap ok one in
    rw after (
      get_mode k t true ∙ get-put_self k d (begin s) nk r stored,
      get_mode j t true
          ∙ get-put_ne k j d (begin s) hk hj nj ne stored
          ∙ sym (get_mode j (begin s) true),
    )

-- After a `Del` without error of a valid key that is no domain part, `Get` of the key finds nothing,
-- and `Get` of another such key returns what it returned before.
pub core_get-core_del :
    (k j : Key) (s : Store) (b : Bool)
    → k.typ ≢ 5
    → j.typ ≢ 5
    → KeyIsValid k
    → KeyIsValid j
    → (core_del false k s).0 ≡ ok b
    → k ≢ j
    → (core_get false k (core_del false k s).1 ≡ ok none)
      × (core_get false j (core_del false k s).1 ≡ core_get false j s)
unfolding core_del core_get view
core_get-core_del k j s b nk nj hk hj h ne =
    let (t, done, after) = update-eq-ok (del k) s b h in
    rw after (
      get_mode k t true ∙ get-del_self k (begin s) nk done,
      get_mode j t true
          ∙ get-del_ne k j (begin s) hk hj nj ne done
          ∙ sym (get_mode j (begin s) true),
    )
