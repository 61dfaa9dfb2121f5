-- ===== src/Greydb.antt =====
-- internal/app/greydb/greydb.go: the command that lists, adds and deletes entries, on the in-process
-- store. What it writes to the standard error is left out; a key that it warns about counts as failed.
pub mod Options
pub mod Applied
pub mod Totals
use greyd_v.Base.{
  ℕ, zero, suc, ◌+◌, ◌==◌, Bytes, bytes_eq, if◌then◌else◌, Bool, true, false, not, List, [], ◌∷◌,
  ◌++◌, Option, none, some, take, drop, length, any, map,
}
use greyd_v.Base.Int.{ℤ, pos, negsuc, add64, eq_ℤ}
use greyd_v.Result.{Result, ok, err, ◌>>=◌}
use greyd_v.Core.{
  Key, Entry, no_entry, Tuple, ip_key, mail_key, domain_key, key_tuple, key_ip, pcount_trapped,
  pcount_spamtrap, pcount_domain, normalize_email,
}
use greyd_v.Ip.{Addr, check_addr}
use greyd_v.Memory.{Tx, Store, put, get, del, iter, view, update}
use greyd_v.Scan.{walk}
use greyd_v.Stats.{Counts, summarize}
use Options.{EntryType, type_white, type_traphit, type_spamtrap, type_domain}

-- `parseKey`: the key of a command line argument, and the argument as it was normalised.
abbrev pub has_at : Bytes → Bool
has_at s = any (λ c. c == b'@') s

module _ (parse_addr : Bytes → Option Addr) where
  unfoldable pub parse_key : Bytes → EntryType → Option (Key × Bytes)
  parse_key key type_white =
      if eq_ℤ (check_addr parse_addr key) (negsuc 0) then none else some (ip_key key, key)
  parse_key key type_traphit =
      if eq_ℤ (check_addr parse_addr key) (negsuc 0) then none else some (ip_key key, key)
  parse_key key type_spamtrap =
      let k = normalize_email key in if has_at k then some (mail_key k, k) else none
  parse_key key type_domain = let k = normalize_email key in some (domain_key k, k)

-- The entry that an add stores over one that is there, and a fresh one.
unfoldable pub refreshed : EntryType → ℤ → ℤ → ℤ → Entry → Entry
refreshed type_white now white_exp trap_exp d = record d {
  pass = now;
  expire = add64 now white_exp;
  pcount = add64 d.pcount (pos 1);
}
refreshed type_traphit now white_exp trap_exp d = record d {
  expire = add64 now trap_exp;
  pcount = pcount_trapped;
}
refreshed type_spamtrap now white_exp trap_exp d = record d {
  expire = pos 0;
  pcount = pcount_spamtrap;
}
refreshed type_domain now white_exp trap_exp d = record d { expire = pos 0; pcount = pcount_domain }

unfoldable pub fresh : EntryType → ℤ → ℤ → ℤ → Entry
fresh type_white now white_exp trap_exp = record no_entry {
  first = now;
  bcount = pos 1;
  pass = now;
  expire = add64 now white_exp;
}
fresh type_traphit now white_exp trap_exp = record no_entry {
  first = now;
  bcount = pos 1;
  expire = add64 now trap_exp;
  pcount = pcount_trapped;
}
fresh type_spamtrap now white_exp trap_exp = record no_entry {
  first = now;
  bcount = pos 1;
  expire = pos 0;
  pcount = pcount_spamtrap;
}
fresh type_domain now white_exp trap_exp = record no_entry {
  first = now;
  bcount = pos 1;
  expire = pos 0;
  pcount = pcount_spamtrap;
}

abbrev pub added : EntryType → ℤ → ℤ → ℤ → Option Entry → Entry
added typ now white_exp trap_exp none = fresh typ now white_exp trap_exp
added typ now white_exp trap_exp (some d) = refreshed typ now white_exp trap_exp d

-- What a write leaves of the transaction: nothing new where it fails.
abbrev pub after_put : Entry → Tx → Result Tx → Option Entry × Tx
after_put d t (err e) = (none, t)
after_put d t (ok t') = (some d, t')

abbrev pub after_get : Key → EntryType → ℤ → ℤ → ℤ → Tx → Result (Option Entry) → Option Entry × Tx
after_get k typ now white_exp trap_exp t (err e) = (none, t)
after_get k typ now white_exp trap_exp t (ok o) =
    let d = added typ now white_exp trap_exp o in after_put d t (put k d t)

abbrev pub after_del : Tx → Result (Bool × Tx) → Option Entry × Tx
after_del t (err e) = (none, t)
after_del t (ok (false, t')) = (none, t')
after_del t (ok (true, t')) = (some no_entry, t')

-- `applyKey`: none where the key failed. `dbUpdate` calls it for the two actions only that change an
-- entry: `is_del` is the test that the action is the deletion.
unfoldable pub apply_key : Key → Bool → EntryType → ℤ → ℤ → ℤ → Tx → Option Entry × Tx
unfolding fresh refreshed
apply_key k is_del typ now white_exp trap_exp t =
    if is_del then after_del t (del k t) else after_get k typ now white_exp trap_exp t (get k t)

-- What the syncer is told: `White` or `Trapped`, with the address, the two times and `del`.
pub data Told : Type 0 where
  told_white : Bytes → ℤ → ℤ → Bool → Told
  told_trapped : Bytes → ℤ → ℤ → Bool → Told

abbrev pub tell : EntryType → ℤ → Bool → List (Bytes × Entry) → List Told
tell type_white now is_del applied = map (λ a. told_white a.0 now a.1.expire is_del) applied
tell type_traphit now is_del applied = map (λ a. told_trapped a.0 now a.1.expire is_del) applied
tell type_spamtrap now is_del applied = []
tell type_domain now is_del applied = []

-- What the closure of an update notes: how many keys failed, and the others with their entries.
pub record Outcome : Type 0 where
  pub failed : ℕ
  pub applied : List (Bytes × Entry)

-- What a round notes of its key.
abbrev pub note : Bytes → Option Entry → Outcome → Outcome
note key none o = record o { failed = suc o.failed }
note key (some d) o = record o { applied = (key, d) ∷ o.applied }

-- `updateBatch`
abbrev pub update_batch : ℕ
update_batch = 1000

-- The batches: with as many rounds as there are keys, each takes one at least.
unfoldable pub batches : ℕ → List Bytes → List (List Bytes)
batches zero keys = []
batches (suc n) [] = []
batches (suc n) (k ∷ ks) = take update_batch (k ∷ ks) ∷ batches n (drop update_batch (k ∷ ks))

-- What an update of the database returns: the failed keys, what the syncer was told, and the store.
pub record Updated : Type 0 where
  pub failed : ℕ
  pub told : List Told
  pub store : Store

module _ (parse_addr : Bytes → Option Addr) (is_del : Bool) (typ : EntryType)
    (now white_exp trap_exp : ℤ) where
  -- One round of the loop over a batch: the key as it was parsed, and the rest of the batch.
  unfoldable pub batch_round : Option (Key × Bytes) → (Tx → Outcome × Tx) → Tx → Outcome × Tx
  batch_round none rest t = let r = rest t in (note [] none r.0, r.1)
  batch_round (some (k, key)) rest t =
      let a = apply_key k is_del typ now white_exp trap_exp t in
      let r = rest a.1 in (note key a.0 r.0, r.1)

  unfoldable pub apply_batch : List Bytes → Tx → Outcome × Tx
  unfolding batch_round parse_key apply_key
  apply_batch [] t = (record { failed = 0; applied = [] }, t)
  apply_batch (key ∷ keys) t = batch_round (parse_key parse_addr key typ) (apply_batch keys) t

  -- What a batch adds to the result: its announcements where there is a syncer, or, where the transaction
  -- is refused, each of its keys as failed.
  unfoldable pub after_batch : Bool → List Bytes → Result Outcome × Store → Updated → Updated
  after_batch has_syncer batch (err e, s) later = record later {
    failed = length batch + later.failed;
  }
  after_batch has_syncer batch (ok o, s) later = record later {
    failed = o.failed + later.failed;
    told = (if has_syncer then tell typ now is_del o.applied else []) ++ later.told;
  }

  -- The loop of `dbUpdate` over the batches, each in a transaction of its own.
  unfoldable pub update_batches : Bool → List (List Bytes) → Store → Updated
  unfolding after_batch apply_batch update
  update_batches has_syncer [] s = record { failed = 0; told = []; store = s }
  update_batches has_syncer (batch ∷ rest) s =
      let ran = update false (λ t. ok (apply_batch batch t)) s in
      after_batch has_syncer batch ran (update_batches has_syncer rest ran.1)

  -- `dbUpdate`
  unfoldable pub db_update : Bool → List Bytes → Store → Updated
  unfolding update_batches batches
  db_update has_syncer keys s = update_batches has_syncer (batches (length keys) keys) s

-- A line of the listing, with what it shows.
pub data Line : Type 0 where
  grey_line : Tuple → Entry → Line
  spamtrap_line : Bytes → Line
  domain_line : Bytes → Line
  trapped_line : Bytes → ℤ → Line
  white_line : Bytes → Entry → Line

-- `printEntry`: a key of another type has no line.
unfoldable pub print_entry : Key → Entry → List Line
print_entry k d =
    if k.typ == key_tuple
    then grey_line k.tuple d ∷ []
    else if k.typ == 2
    then spamtrap_line k.str ∷ []
    else if k.typ == 4
    then domain_line k.str ∷ []
    else if k.typ == key_ip
    then (if eq_ℤ d.pcount pcount_trapped
        then trapped_line k.str d.expire ∷ []
        else white_line k.str d ∷ [])
    else []

-- `dbList`: the lines, or the error that ends the listing, without the lines printed before it.
unfoldable pub db_list : Store → Result (List Line)
unfolding print_entry walk view
db_list s =
    view false
      (λ t. do r ← walk (λ k d out u. ok (out ++ print_entry k d, u)) (iter 7 t) [] t; ok r.0) s

-- `dbSummary`
abbrev pub db_summary : Store → Result Counts
db_summary s = summarize false s
