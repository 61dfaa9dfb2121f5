-- ===== src/Bolt/Rounds.antt =====
-- The scan of adapters/db/bolt/bolt.go, which defers its changes, and that of adapters/db/kv/kv.go, which
-- makes them at once: they agree in every round.
use greyd_v.Base.{
  ℕ, Bytes, bytes_eq, bytes_eq_iff, ◌==◌, if◌then◌else◌, Bool, true, false, List, [], ◌∷◌, ◌++◌,
  Option, none, some, ◌≡◌, refl, sym, ap, ◌∙◌, arith, All, lookup, inl, inr, Bool-cases,
}
use greyd_v.Result.{Result, ok, err}
use greyd_v.Core.{Key, ip_key, key_ip}
use greyd_v.Kv.{encode_key}
use greyd_v.Memory.{Tx, del}
use greyd_v.Scan.{State}
use greyd_v.Bolt
use greyd_v.Bolt.{Bucket, Walk, member, state_of_raw, apply_dels, apply_puts}
use greyd_v.Bolt.Pending.{get-deleted}
use greyd_v.Bolt.Entries.{InEntries, lookup-del_entries, same_address, tuple_address}

pub All-both :
    {A : Type 0} {P Q R : A → Type 0} (xs : List A)
    → ((x : A) → P x → Q x → R x)
    → All P xs
    → All Q xs
    → All R xs
All-both [] f p q = tt
All-both (x ∷ xs) f p q = (f x p.0 q.0, All-both xs f p.1 q.1)

state_gone : (o : Option Bytes) → state_of_raw o true ≡ ok 0
state_gone none = refl
state_gone (some v) = refl

pub member_head : (a x : Bytes) (xs : List Bytes) → bytes_eq a x ≡ true → member a (x ∷ xs) ≡ true
unfolding member
member_head a x xs h = rw h refl

pub member_tail :
    (a x : Bytes) (xs : List Bytes) → bytes_eq a x ≡ false → member a (x ∷ xs) ≡ member a xs
unfolding member
member_tail a x xs h = rw h refl

pub bytes_eq_sym : (a x : Bytes) → bytes_eq a x ≡ bytes_eq x a
bytes_eq_sym a x = ground (arith, bytes_eq_iff a x, bytes_eq_iff x a)

-- The state of an address after a deletion: `o` is what the transaction had of it, `v` what the bucket has.
abbrev pub worked_out : Bytes → Walk → Option Bytes → Result ℕ
worked_out a w v = if member a w.added_ip then ok 2 else state_of_raw v (member a w.deleted_ip)

state_after :
    (k : Key) (a : Bytes) (w : Walk) (o v : Option Bytes)
    → InEntries k
    → state_of_raw o false ≡ worked_out a w v
    → (member a w.added_ip ≡ true → bytes_eq (encode_key (ip_key a)) (encode_key k) ≡ false)
    → state_of_raw (if bytes_eq (encode_key k) (encode_key (ip_key a)) then none else o) false ≡ (
        if member a w.added_ip
        then ok 2
        else state_of_raw v
            (member a (if k.typ == key_ip then k.str ∷ w.deleted_ip else w.deleted_ip)))
state_after k a w o v (inr h) was unnamed = rw (tuple_address k a h, h) was
state_after k a w o v (inl h) was unnamed = elim (Bool-cases (bytes_eq k.str a)) [
  | inl e ↦ elim (Bool-cases (member a w.added_ip)) [
    | inl m ↦
        absurd (
          cc
            (unnamed m, e, same_address k a h, bytes_eq_sym (encode_key k) (encode_key (ip_key a))))
    | inr m ↦
        rw
          (same_address k a h, e, h, m, member_head a k.str w.deleted_ip (bytes_eq_sym a k.str ∙ e))
          (sym (state_gone v))
  ]
  | inr e ↦
      rw (same_address k a h, e, h, member_tail a k.str w.deleted_ip (bytes_eq_sym a k.str ∙ e)) was
]

module _ {B : Type 0} (bbolt : Bucket B) (b : B) where
  -- What the in-process transaction `t` holds when the walk is at `w`, with `rest` still to visit: the bucket
  -- with the deferred changes made; of the keys to visit, what the bucket has; and the states of addresses
  -- that the walk works out. No deferred write is about a key to visit.
  pub record Agree (rest : List (Bytes × Bytes)) (w : Walk) (t : Tx) : Type 0 where
    pub writable : t.is_read_only ≡ false
    pub current :
        (k : Bytes)
        → lookup k t.stored.of_entries
          ≡ bbolt.get k (apply_puts bbolt w.puts (apply_dels bbolt w.dels b))
    pub behind : All (λ p. lookup p.0 t.stored.of_entries ≡ some p.1) rest
    pub unwritten : All (λ p. All (λ q. bytes_eq q.0 p.0 ≡ false) w.puts) rest
    pub unnamed :
        All
          (λ p.
            (a : Bytes) → member a w.added_ip ≡ true → bytes_eq (encode_key (ip_key a)) p.0 ≡ false)
          rest
    pub states :
        (a : Bytes)
        → state_of_raw (lookup (encode_key (ip_key a)) t.stored.of_entries) false
          ≡ Bolt.addr_state bbolt a b w

  -- The results of the two rounds.
  unfoldable pub Alike : List (Bytes × Bytes) → Result (State × Tx) → Result Walk → Type 0
  Alike rest (err e) (err f) = e ≡ f
  Alike rest (err e) (ok w) = true ≡ false
  Alike rest (ok (s, t)) (err f) = true ≡ false
  Alike rest (ok (s, t)) (ok w) = (s ≡ w.shown) × Agree rest w t

  pub if-Alike :
      (rest : List (Bytes × Bytes)) (c : Bool) (x y : Result (State × Tx)) (u v : Result Walk)
      → (c ≡ true → Alike rest x u)
      → (c ≡ false → Alike rest y v)
      → Alike rest (if c then x else y) (if c then u else v)
  if-Alike rest true x y u v h k = h refl
  if-Alike rest false x y u v h k = k refl

  -- A round that changes no entry.
  pub shown_Agree :
      (p : Bytes × Bytes) (rest : List (Bytes × Bytes)) (w : Walk) (t : Tx) (s : State)
      → Agree (p ∷ rest) w t
      → Agree rest (record w { shown = s }) t
  unfolding Bolt.addr_state
  shown_Agree p rest w t s g = record {
    writable = g.writable;
    current = g.current;
    behind = g.behind.1;
    unwritten = g.unwritten.1;
    unnamed = g.unnamed.1;
    states = g.states;
  }

  -- A round that deletes its key, an expired one.
  pub deleted_Agree :
      (k : Key) (v : Bytes) (rest : List (Bytes × Bytes)) (w : Walk) (t t' : Tx) (found : Bool)
      → InEntries k
      → All (λ p. bytes_eq (encode_key k) p.0 ≡ false) rest
      → Agree ((encode_key k, v) ∷ rest) w t
      → del k t ≡ ok (found, t')
      → t'.is_read_only ≡ false
      → Agree rest
          (record w {
            dels = w.dels ++ (encode_key k ∷ []);
            deleted_ip = if k.typ == key_ip then k.str ∷ w.deleted_ip else w.deleted_ip;
          })
          t'
  unfolding Bolt.addr_state
  deleted_Agree k v rest w t t' found i apart g h still = record {
    writable = still;
    current = λ j.
        lookup-del_entries k t i h j
        ∙ (ap (λ o. if bytes_eq (encode_key k) j then none else o) (g.current j)
            ∙ sym (get-deleted bbolt j (encode_key k) w.dels w.puts b g.unwritten.0));
    behind =
        All-both rest
          (λ p apart_p there.
            lookup-del_entries k t i h p.0
            ∙ (ap (λ c. if c then none else lookup p.0 t.stored.of_entries) apart_p ∙ there))
          apart g.behind.1;
    unwritten = g.unwritten.1;
    unnamed = g.unnamed.1;
    states = λ a.
        ap (λ o. state_of_raw o false) (lookup-del_entries k t i h (encode_key (ip_key a)))
        ∙ state_after k a w (lookup (encode_key (ip_key a)) t.stored.of_entries)
            (bbolt.get (encode_key (ip_key a)) b) i (g.states a) (g.unnamed.0 a);
  }
