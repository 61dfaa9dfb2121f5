-- ===== src/Bolt.antt =====
-- adapters/db/bolt/bolt.go: the transactions of the bbolt store on its entries, and its scan. A bucket of
-- the bbolt library is a parameter: its operations, and what is documented of Put, Delete and Get.
pub mod Pending
pub mod Entries
pub mod Rounds
pub mod Rekeyed
pub mod Walks
pub mod Equivalent
use greyd_v.Base.{
  ℕ, Bytes, bytes_eq, ◌==◌, ◌&&◌, if◌then◌else◌, Bool, true, false, not, List, [], ◌∷◌, ◌++◌,
  Option, none, some, ◌≡◌,
}
use greyd_v.Base.Int.{ℤ, pos, eq_ℤ, leb_ℤ, ltb_ℤ, add64}
use greyd_v.Result.{Result, ok, err, read_only, ◌>>=◌}
use greyd_v.Core.{
  Key, Entry, key_ip, key_tuple, ip_key, pcount_trapped, pcount_spamtrap, ScanResult,
}
use greyd_v.Ip.{Addr}
use greyd_v.Kv.{encode_key, decode_key, encode_entry, decode_entry}
use greyd_v.Scan.{State, initial, add_white}

-- A bbolt.Bucket, with `cursor` the pairs that a cursor visits.
pub record Bucket (B : Type 0) : Type 0 where
  pub get : Bytes → B → Option Bytes
  pub put : Bytes → Bytes → B → B
  pub delete : Bytes → B → B
  pub cursor : B → List (Bytes × Bytes)
  pub get-put :
      (k j v : Bytes) (b : B) → get j (put k v b) ≡ (if bytes_eq k j then some v else get j b)
  pub get-delete :
      (k j : Bytes) (b : B) → get j (delete k b) ≡ (if bytes_eq k j then none else get j b)

-- The variables of the walk: the result with the addresses seen, the deferred deletions and writes, and the
-- addresses that these are about.
pub record Walk : Type 0 where
  pub shown : State
  pub dels : List Bytes
  pub puts : List (Bytes × Bytes)
  pub deleted_ip : List Bytes
  pub added_ip : List Bytes

abbrev pub start : Walk
start = record { shown = initial; dels = []; puts = []; deleted_ip = []; added_ip = [] }

-- Membership in a map of flags.
unfoldable pub member : Bytes → List Bytes → Bool
member a [] = false
member a (x ∷ xs) = let later = member a xs in if bytes_eq a x then true else later

abbrev pub state_of_entry : Entry → ℕ
state_of_entry d = if eq_ℤ d.pcount pcount_trapped then 1 else 2

abbrev pub state_of_raw : Option Bytes → Bool → Result ℕ
state_of_raw none gone = ok 0
state_of_raw (some v) true = ok 0
state_of_raw (some v) false = do d ← decode_entry v; ok (state_of_entry d)

module _ {B : Type 0} (bbolt : Bucket B) where
  -- The closure `addrState`.
  unfoldable pub addr_state : Bytes → B → Walk → Result ℕ
  unfolding member
  addr_state addr b w =
      if member addr w.added_ip
      then ok 2
      else state_of_raw (bbolt.get (encode_key (ip_key addr)) b) (member addr w.deleted_ip)

  unfoldable pub apply_dels : List Bytes → B → B
  apply_dels [] b = b
  apply_dels (k ∷ ks) b = apply_dels ks (bbolt.delete k b)

  unfoldable pub apply_puts : List (Bytes × Bytes) → B → B
  apply_puts [] b = b
  apply_puts ((k, v) ∷ ps) b = apply_puts ps (bbolt.put k v b)

  module _ (parse_addr : Bytes → Option Addr) (now white_exp : ℤ) where
    -- A tuple that has passed, and the state of its address.
    unfoldable pub promote : Bytes → Key → Entry → Walk → ℕ → Walk
    promote raw k d w state = if not (state == 0) then w else record w {
      shown = add_white parse_addr k.tuple.ip w.shown;
      puts =
          w.puts
          ++ ((
            encode_key (ip_key k.tuple.ip),
            encode_entry (record d { expire = add64 now white_exp }),
          )
              ∷ []);
      added_ip = k.tuple.ip ∷ w.added_ip;
      dels = w.dels ++ (raw ∷ []);
    }

    -- One round of the walk.
    unfoldable pub visit : Bytes → Key → Entry → B → Walk → Result Walk
    unfolding promote addr_state
    visit raw k d b w =
        if leb_ℤ d.expire now && ltb_ℤ pcount_spamtrap d.pcount
        then ok (record w {
          dels = w.dels ++ (raw ∷ []);
          deleted_ip = if k.typ == key_ip then k.str ∷ w.deleted_ip else w.deleted_ip;
        })
        else if eq_ℤ d.pcount pcount_trapped && k.typ == key_ip
        then ok (record w {
          shown = record w.shown {
            res = record w.shown.res { traplist = w.shown.res.traplist ++ (k.str ∷ []) };
          };
        })
        else if leb_ℤ (pos 0) d.pcount && leb_ℤ d.pass now
        then (if k.typ == key_tuple
            then (do state ← addr_state k.tuple.ip b w; ok (promote raw k d w state))
            else if k.typ == key_ip
            then ok (record w { shown = add_white parse_addr k.str w.shown })
            else ok w)
        else ok w

    unfoldable pub walk : B → List (Bytes × Bytes) → Walk → Result Walk
    unfolding visit
    walk b [] w = ok w
    walk b ((raw, val) ∷ rest) w = do
      k ← decode_key raw
      d ← decode_entry val
      w' ← visit raw k d b w
      walk b rest w'

    -- `Scan`, of a writable transaction or one that is not.
    unfoldable pub scan : Bool → B → Result (ScanResult × B)
    unfolding walk apply_dels apply_puts
    scan is_writable b =
        if is_writable
        then (do
          w ← walk b (bbolt.cursor b) start
          ok (w.shown.res, apply_puts w.puts (apply_dels w.dels b)))
        else err read_only
