-- ===== src/Bolt/Rekeyed.antt =====
-- A tuple that has passed, in the scan of adapters/db/bolt/bolt.go and in that of adapters/db/kv/kv.go: its
-- address is written and the tuple deleted, afterwards or at once.
use greyd_v.Base.{
  Bytes, bytes_eq, bytes_eq_iff, if◌then◌else◌, Bool, true, false, List, [], ◌∷◌, ◌++◌, Option,
  none, some, ◌≡◌, refl, sym, ap, ◌∙◌, arith, All, All-append, lookup, inl, inr, Bool-cases,
}
use greyd_v.Base.Int.{pos, negsuc, eq_ℤ, leb_ℤ, ℤ}
use greyd_v.Result.{ok}
use greyd_v.Core.{Key, Entry, EntryInRange, ip_key, pcount_trapped}
use greyd_v.Kv.{encode_key, encode_entry}
use greyd_v.Kv.RoundTrip.{decode_entry-encode_entry}
use greyd_v.Memory.{Tx, put, del}
use greyd_v.Scan.{State}
use greyd_v.Bolt
use greyd_v.Bolt.{Bucket, Walk, member, state_of_raw, apply_dels, apply_puts}
use greyd_v.Bolt.Pending.{get-apply_puts, get-deleted}
use greyd_v.Bolt.Entries.{lookup-del_entries, lookup-put_entries, same_address, tuple_address}
use greyd_v.Bolt.Rounds.{Agree, All-both, worked_out, member_head, member_tail, bytes_eq_sym}

not_trapped : (z : ℤ) → leb_ℤ (pos 0) z ≡ true → eq_ℤ z pcount_trapped ≡ false
not_trapped (pos n) h = ground arith
not_trapped (negsuc n) h = absurd (ground (arith, h))

-- A white entry reads back as one.
white_state :
    (d : Entry)
    → EntryInRange d
    → leb_ℤ (pos 0) d.pcount ≡ true
    → state_of_raw (some (encode_entry d)) false ≡ ok 2
white_state d i h = rw (decode_entry-encode_entry d i, not_trapped d.pcount h) refl

-- What two changes of the map leave of a key.
abbrev two_changes : Bytes → Bytes → Bytes → Bytes → Option Bytes → Option Bytes
two_changes raw ek v j o = if bytes_eq raw j then none else if bytes_eq ek j then some v else o

abbrev two_deferred : Bytes → Bytes → Bytes → Bytes → Option Bytes → Option Bytes
two_deferred raw ek v j o = if bytes_eq ek j then some v else if bytes_eq raw j then none else o

changes_commute :
    (raw ek v j : Bytes) (o : Option Bytes)
    → bytes_eq raw ek ≡ false
    → two_changes raw ek v j o ≡ two_deferred raw ek v j o
changes_commute raw ek v j o h =
    ground (arith, h, bytes_eq_iff raw j, bytes_eq_iff ek j, bytes_eq_iff raw ek)

state_rekeyed :
    (addr a : Bytes) (d : Entry) (w : Walk) (o v : Option Bytes)
    → EntryInRange d
    → leb_ℤ (pos 0) d.pcount ≡ true
    → state_of_raw o false ≡ worked_out a w v
    → state_of_raw (if bytes_eq addr a then some (encode_entry d) else o) false
      ≡ (if member a (addr ∷ w.added_ip) then ok 2 else state_of_raw v (member a w.deleted_ip))
state_rekeyed addr a d w o v i white was = elim (Bool-cases (bytes_eq addr a)) [
  | inl e ↦ rw (e, member_head a addr w.added_ip (bytes_eq_sym a addr ∙ e)) (white_state d i white)
  | inr e ↦ rw (e, member_tail a addr w.added_ip (bytes_eq_sym a addr ∙ e)) was
]

module _ {B : Type 0} (bbolt : Bucket B) (b : B) where
  pub rekeyed_Agree :
      (k : Key) (v addr : Bytes) (d : Entry) (s : State) (rest : List (Bytes × Bytes)) (w : Walk)
      (t t1 t2 : Tx) (found : Bool)
      → k.typ ≡ 3
      → EntryInRange d
      → leb_ℤ (pos 0) d.pcount ≡ true
      → All (λ p. bytes_eq (encode_key k) p.0 ≡ false) rest
      → All (λ p. (a : Bytes) → bytes_eq (encode_key (ip_key a)) p.0 ≡ false) rest
      → Agree bbolt b ((encode_key k, v) ∷ rest) w t
      → put (ip_key addr) d t ≡ ok t1
      → del k t1 ≡ ok (found, t2)
      → t2.is_read_only ≡ false
      → Agree bbolt b rest
          (record w {
            shown = s;
            puts = w.puts ++ ((encode_key (ip_key addr), encode_entry d) ∷ []);
            added_ip = addr ∷ w.added_ip;
            dels = w.dels ++ (encode_key k ∷ []);
          })
          t2
  unfolding Bolt.addr_state
  rekeyed_Agree k v addr d s rest w t t1 t2 found typ i white apart others g h1 h2 still =
      let raw = encode_key k in
      let ek = encode_key (ip_key addr) in
      let new = encode_entry d in
      let changed : (j : Bytes)
          → lookup j t2.stored.of_entries
            ≡ two_changes raw ek new j (lookup j t.stored.of_entries) =
        λ j.
          lookup-del_entries k t1 (inr typ) h2 j
          ∙ ap (λ o. if bytes_eq raw j then none else o)
              (lookup-put_entries (ip_key addr) d t (inl refl) h1 j) in
      let away : All (λ p. (bytes_eq raw p.0 ≡ false) × (bytes_eq ek p.0 ≡ false)) rest =
        All-both rest (λ p x y. (x, y addr)) apart others in
      record {
        writable = still;
        current = λ j.
            changed j
            ∙ (ap (two_changes raw ek new j) (g.current j)
                ∙ (changes_commute raw ek new j _ (tuple_address k addr typ)
                    ∙ sym (
                        get-apply_puts bbolt j ek new w.puts
                          (apply_dels bbolt (w.dels ++ (raw ∷ [])) b)
                        ∙ ap (λ o. if bytes_eq ek j then some new else o)
                            (get-deleted bbolt j raw w.dels w.puts b g.unwritten.0))));
        behind = All-both rest (λ p ne there. changed p.0 ∙ rw (ne.0, ne.1) there) away g.behind.1;
        unwritten =
            All-both rest (λ p kept free. All-append _ w.puts ((ek, new) ∷ []) kept (free addr, tt))
              g.unwritten.1 others;
        unnamed = All-both rest (λ p x y. λ a m. y a) apart others;
        states = λ a.
            ap (λ o. state_of_raw o false) (changed (encode_key (ip_key a)))
            ∙ rw (tuple_address k a typ, same_address (ip_key addr) a refl)
                (state_rekeyed addr a d w _ (bbolt.get (encode_key (ip_key a)) b) i white
                  (g.states a));
      }
