-- ===== src/Grey/Effects.antt =====
-- What one greylist tuple does to the database: `processGrey` of internal/grey/greylister.go.
use greyd_v.Base.{
  Bytes, if◌then◌else◌, bytes_eq_iff, Bool, true, false, Option, none, some, ◌≡◌, ◌≢◌, ◌⊎◌, inl,
  inr, ◌∙◌, refl, sym, arith,
}
use greyd_v.Base.Int.{ℤ, pos, InRange, ltb_ℤ, add64, add64-InRange}
use greyd_v.Result.{ok}
use greyd_v.Core.{Tuple, Key, ip_key, tuple_key, Entry, EntryInRange, pcount_trapped}
use greyd_v.Kv.RoundTrip.{KeyIsValid}
use greyd_v.Memory.{Tx, Store, put, get, view, update, kept}
use greyd_v.Memory.Laws.{get-put_self, get-put_ne, get_mode, get-InRange}
use greyd_v.Memory.Transactions.{core_get}
use greyd_v.Scan.Rules.{put-total, ip_key-KeyIsValid}
use greyd_v.Grey.{
  Engine, SpfResult, Ctx, Time, Plan, grey_plan, trap_plan, low_prio, new_entry, seen_again,
  store_grey, go_on, checked, trap_check, after_trap_check, finish, Outcome, process_grey,
}

-- The read-write transaction on a store, and a context that is never cancelled.
abbrev pub begin : Store → Tx
begin s = record { stored = s.db; is_read_only = false }

abbrev pub live : Ctx
live = record { at_view = false; at_update = false }

if_InRange : (b : Bool) (x y : ℤ) → InRange x → InRange y → InRange (if b then x else y)
if_InRange true x y hx hy = hx
if_InRange false x y hx hy = hy

-- After the message: it succeeded, the entry stands under its key, and no other key changed.
pub record Wrote (s : Store) (o : Outcome) (k : Key) (d : Entry) : Type 0 where
  pub succeeded : o.result ≡ ok tt
  pub written : core_get false k o.store ≡ ok (some d)
  pub others :
      (j : Key) → KeyIsValid j → j.typ ≢ 5 → k ≢ j → core_get false j o.store ≡ core_get false j s

module _ (g : Engine) (gt : Tuple) (sync_out : Bool) (dst_ip : Bytes) (now : Time) where
  -- What `store_grey` puts under which key.
  abbrev pub stored_plan : Plan → Option Entry → Plan
  stored_plan p none = low_prio g gt sync_out dst_ip now p
  stored_plan p (some _) = p

  abbrev pub stored_entry : Plan → Option Entry → Entry
  stored_entry p none = new_entry now (low_prio g gt sync_out dst_ip now p)
  stored_entry p (some d) = seen_again g now p.spamtrap d

  store_grey_lem :
      (p : Plan) (s : Store) (d : Option Entry)
      → get p.key (begin s) ≡ ok d
      → (t' : Tx) × (put (stored_plan p d).key (stored_entry p d) (begin s) ≡ ok t')
        × (store_grey g gt sync_out dst_ip now p (begin s) ≡ ok (stored_plan p d, t'))
  unfolding store_grey
  store_grey_lem p s none h =
      let q = low_prio g gt sync_out dst_ip now p in
      let (t', done, w) = put-total q.key (new_entry now q) (begin s) refl in
      (t', done, rw (h, done))
  store_grey_lem p s (some d) h =
      let (t', done, w) = put-total p.key (seen_again g now p.spamtrap d) (begin s) refl in
      (t', done, rw (h, done))

  -- The outcome of the transaction for plan `p`.
  abbrev outcome : Plan → Store → Outcome
  outcome p s = finish g gt sync_out now (update false (store_grey g gt sync_out dst_ip now p) s)

  outcome-Wrote :
      (p : Plan) (s : Store) (d : Option Entry)
      → s.is_read_only ≡ false
      → get p.key (begin s) ≡ ok d
      → KeyIsValid (stored_plan p d).key
      → (stored_plan p d).key.typ ≢ 5
      → EntryInRange (stored_entry p d)
      → Wrote s (outcome p s) (stored_plan p d).key (stored_entry p d)
  unfolding finish update kept core_get view
  outcome-Wrote p s d w h valid typ range =
      let (t', done, ran) = store_grey_lem p s d h in
      record {
        succeeded = rw (w, ran, kept);
        written =
            rw (w, ran, kept) (get_mode _ t' true ∙ get-put_self _ _ (begin s) typ range done);
        others = λ j hj nj ne.
            rw (w, ran, kept)
              (get_mode j t' true
                ∙ get-put_ne _ j _ (begin s) valid hj nj ne done
                ∙ sym (get_mode j (begin s) true));
      }

module _ (g : Engine) (spf : Option (Bytes → Bytes → Bytes → SpfResult)) (gt : Tuple)
    (sync_out : Bool) (dst_ip : Bytes) (now : Time) (s : Store) where
  abbrev pub processed : Outcome
  processed = process_grey g spf live gt sync_out dst_ip now s

  -- A recipient that is no trap, and a sender that the policy check says nothing against.
  process_grey-go_on :
      view false (trap_check g gt.to) s ≡ ok 1
      → (sync_out ≡ false) ⊎ (checked g gt spf ≡ go_on)
      → processed ≡ outcome g gt sync_out dst_ip now (grey_plan g gt) s
  unfolding process_grey
  process_grey-go_on tc (inl quiet) = rw (tc, after_trap_check) (ground arith)
  process_grey-go_on tc (inr clean) = rw (tc, after_trap_check) (ground arith)

  process_grey-trap :
      view false (trap_check g gt.to) s ≡ ok 0
      → processed ≡ outcome g gt sync_out dst_ip now (trap_plan g gt) s
  unfolding process_grey
  process_grey-trap tc = rw (tc, after_trap_check) (ground arith)

  low_prio_other : (p : Plan) → dst_ip ≢ g.low_prio_mx → low_prio g gt sync_out dst_ip now p ≡ p
  unfolding low_prio
  low_prio_other p ne = ground (arith, bytes_eq_iff dst_ip g.low_prio_mx)

  low_prio_trap : low_prio g gt sync_out dst_ip now (trap_plan g gt) ≡ trap_plan g gt
  unfolding low_prio
  low_prio_trap = ground arith

  -- In a writable store, a valid tuple that it does not know, to a recipient that is no trap, not sent
  -- to the low priority MX, that the policy check says nothing against, at a time that fits an
  -- int64: it becomes a grey entry whose pass time is its expiry, under the tuple's key, and no
  -- other valid key that is no domain part changes.
  pub process_grey-unseen :
      s.is_read_only ≡ false
      → KeyIsValid (tuple_key gt)
      → InRange now.unix
      → view false (trap_check g gt.to) s ≡ ok 1
      → (sync_out ≡ false) ⊎ (checked g gt spf ≡ go_on)
      → dst_ip ≢ g.low_prio_mx
      → core_get false (tuple_key gt) s ≡ ok none
      → Wrote s processed (tuple_key gt) (record {
        first = now.unix;
        pass = add64 now.unix g.grey_expiry;
        expire = add64 now.unix g.grey_expiry;
        bcount = pos 1;
        pcount = pos 0;
      })
  unfolding core_get view new_entry
  process_grey-unseen w valid range tc clean other unseen =
      let p = grey_plan g gt in
      let same = low_prio_other p other in
      let here = get_mode (tuple_key gt) (begin s) true in
      let fits : EntryInRange (new_entry now p) = record {
        first = range;
        pass = add64-InRange now.unix g.grey_expiry;
        expire = add64-InRange now.unix g.grey_expiry;
        bcount = omega arith;
        pcount = omega arith;
      } in
      rw (process_grey-go_on tc clean) (
        rw same at (
          outcome-Wrote g gt sync_out dst_ip now p s none w (sym here ∙ unseen) (rw same valid)
            (rw same (λ e. absurd (omega arith))) (rw same fits)))

  -- In a writable store, a valid tuple that it knows, to a recipient that is no trap, that the policy
  -- check says nothing against, at a time that fits an int64: its block count grows, its pass time
  -- becomes now once more than `pass_time` has gone by since it was first seen, its expiry stays,
  -- and no other valid key that is no domain part changes.
  pub process_grey-retry :
      (d : Entry)
      → s.is_read_only ≡ false
      → KeyIsValid (tuple_key gt)
      → InRange now.unix
      → view false (trap_check g gt.to) s ≡ ok 1
      → (sync_out ≡ false) ⊎ (checked g gt spf ≡ go_on)
      → core_get false (tuple_key gt) s ≡ ok (some d)
      → Wrote s processed (tuple_key gt) (record {
        first = d.first;
        pass = if ltb_ℤ (add64 d.first g.pass_time) now.unix then now.unix else d.pass;
        expire = d.expire;
        bcount = add64 d.bcount (pos 1);
        pcount = pos 0;
      })
  unfolding core_get view seen_again
  process_grey-retry d w valid range tc clean seen =
      let inr_d : EntryInRange d =
        get-InRange (tuple_key gt) (record (begin s) { is_read_only = true }) d
          (λ e. absurd (omega arith)) seen in
      let p = grey_plan g gt in
      let here = get_mode (tuple_key gt) (begin s) true in
      let fits : EntryInRange (seen_again g now false d) = record {
        first = inr_d.first;
        pass =
            if_InRange (ltb_ℤ (add64 d.first g.pass_time) now.unix) now.unix d.pass range
              inr_d.pass;
        expire = inr_d.expire;
        bcount = add64-InRange d.bcount (pos 1);
        pcount = omega arith;
      } in
      rw (process_grey-go_on tc clean) (
        outcome-Wrote g gt sync_out dst_ip now p s (some d) w (sym here ∙ seen) valid
          (λ e. absurd (omega arith)) fits)

  -- In a writable store, a tuple to a recipient that is a trap, at a time that fits an int64: whatever
  -- was known of the address, the store holds a greytrapped entry for it afterwards, and no other
  -- valid key that is no domain part changes.
  pub process_grey-trapped :
      (e : Option Entry)
      → s.is_read_only ≡ false
      → InRange now.unix
      → view false (trap_check g gt.to) s ≡ ok 0
      → core_get false (ip_key gt.ip) s ≡ ok e
      → (d' : Entry) × Wrote s processed (ip_key gt.ip) d' × (d'.pcount ≡ pcount_trapped)
  unfolding core_get view new_entry seen_again
  process_grey-trapped none w range tc known =
      let p = trap_plan g gt in
      let same = low_prio_trap in
      let here = get_mode (ip_key gt.ip) (begin s) true in
      let fits : EntryInRange (new_entry now p) = record {
        first = range;
        pass = add64-InRange now.unix g.trap_expiry;
        expire = add64-InRange now.unix g.trap_expiry;
        bcount = omega arith;
        pcount = omega arith;
      } in
      let wrote =
        outcome-Wrote g gt sync_out dst_ip now p s none w (sym here ∙ known)
          (rw same (ip_key-KeyIsValid gt.ip)) (rw same (λ e. absurd (omega arith)))
          (rw same fits) in
      (new_entry now p, rw (process_grey-trap tc) (rw same at wrote), refl)
  process_grey-trapped (some d) w range tc known =
      let p = trap_plan g gt in
      let inr_d : EntryInRange d =
        get-InRange (ip_key gt.ip) (record (begin s) { is_read_only = true }) d
          (λ e. absurd (omega arith)) known in
      let here = get_mode (ip_key gt.ip) (begin s) true in
      let fits : EntryInRange (seen_again g now true d) = record {
        first = inr_d.first;
        pass =
            if_InRange (ltb_ℤ (add64 d.first g.pass_time) now.unix) now.unix d.pass range
              inr_d.pass;
        expire = inr_d.expire;
        bcount = add64-InRange d.bcount (pos 1);
        pcount = omega arith;
      } in
      (
        seen_again g now true d,
        rw (process_grey-trap tc) (
            outcome-Wrote g gt sync_out dst_ip now p s (some d) w (sym here ∙ known)
              (ip_key-KeyIsValid gt.ip) (λ e. absurd (omega arith)) fits),
        refl,
      )
