-- ===== src/Grey.antt =====
-- internal/grey/greylister.go: the greylisting engine over the in-process store. Logging is left
-- out. What the engine announces to other hosts is returned as a list of events. `strings.EqualFold`
-- is modelled on ASCII letters; other bytes are compared as they are.
mod Config
mod Number
pub mod Messages
pub mod Rounds
pub mod Effects
pub mod Blocked
pub use Config.*
unfoldable pub use Number.{parse_int}
use greyd_v.Base.{
  ℕ, ◌-◌, Bytes, ◌==◌, ◌&&◌, ◌||◌, if◌then◌else◌, bytes_eq, Bool, true, false, not, List, [], ◌∷◌,
  Option, none, some, any, ltb, length, drop, map,
}
use greyd_v.Base.Int.{ℤ, pos, negsuc, ltb_ℤ, eq_ℤ, add64}
use greyd_v.Result.{Result, ok, err, ◌>>=◌}
use greyd_v.Core.{
  Tuple, Key, ip_key, mail_key, tuple_key, domain_part_key, Entry, to_lower, pcount_trapped,
}
use greyd_v.Memory.{Tx, Store, put, get, del, view, update}

-- `domainMatches`: the recipient ends with the suffix, whatever the case of letters.
unfoldable pub domain_matches : Bytes → Bytes → Bool
unfolding bytes_eq to_lower
domain_matches domain to =
    if ltb (length to) (length domain)
    then false
    else bytes_eq (map to_lower (drop (length to - length domain) to)) (map to_lower domain)

is_found : {A : Type 0} → Option A → Bool
is_found none = false
is_found (some _) = true

-- `trapCheck`: 0 for a trap, 1 for none. `matched` is whether a domain of the file matched.
unfoldable pub trap_check_with : Bool → Bool → Bool → Bytes → Tx → Result ℕ
unfolding is_found
trap_check_with matched from_file by_db to t = do
  in_db ←
      (if not matched && by_db
        then (do d ← get (domain_part_key to) t; ok (is_found d))
        else ok false)
  if (from_file || (not matched && by_db)) && not (matched || in_db)
      then ok 0
      else do d ← get (mail_key to) t; ok (if is_found d then 0 else 1)

unfoldable pub trap_check : Engine → Bytes → Tx → Result ℕ
unfolding domain_matches
trap_check g to t =
    trap_check_with (any (λ d. domain_matches d to) g.domains) (not (ltb (length g.domains) 1))
      g.db_permitted_domains to t

-- What the check of the sender policy makes of a tuple that is no spamtrap hit.
pub data Verdict : Type 0 where
  go_on whitelist trap : Verdict

unfoldable pub verdict : Engine → SpfResult → Verdict
verdict g pass = if g.whitelist_on_pass then whitelist else go_on
verdict g soft_fail = if g.trap_on_softfail then trap else go_on
verdict g fail = trap
verdict g _ = go_on

unfoldable pub checked : Engine → Tuple → Option (Bytes → Bytes → Bytes → SpfResult) → Verdict
unfolding verdict
checked g gt none = go_on
checked g gt (some check) = if g.spf_enable then verdict g (check gt.ip gt.helo gt.from) else go_on

-- How the entry is to be stored: as a trap or not, with which expiry, under which key.
pub record Plan : Type 0 where
  pub spamtrap : Bool
  pub expire : ℤ
  pub key : Key

abbrev pub grey_plan : Engine → Tuple → Plan
grey_plan g gt = record { spamtrap = false; expire = g.grey_expiry; key = tuple_key gt }

abbrev pub trap_plan : Engine → Tuple → Plan
trap_plan g gt = record { spamtrap = true; expire = g.trap_expiry; key = ip_key gt.ip }

-- A new entry that goes to a low priority MX first is trapped.
unfoldable pub low_prio : Engine → Tuple → Bool → Bytes → Time → Plan → Plan
unfolding bytes_eq
low_prio g gt sync_out dst_ip now p =
    if sync_out
      && (not (bytes_eq g.low_prio_mx [])
          && (bytes_eq dst_ip g.low_prio_mx && before (add_seconds g.startup (pos 60)) now))
    then trap_plan g gt
    else p

abbrev pub mark : Bool → ℤ → ℤ
mark spamtrap n = if spamtrap then pcount_trapped else n

unfoldable pub new_entry : Time → Plan → Entry
new_entry now p = record {
  first = now.unix;
  pass = add64 now.unix p.expire;
  expire = add64 now.unix p.expire;
  bcount = pos 1;
  pcount = mark p.spamtrap (pos 0);
}

unfoldable pub seen_again : Engine → Time → Bool → Entry → Entry
seen_again g now spamtrap d = record d {
  bcount = add64 d.bcount (pos 1);
  pcount = mark spamtrap (pos 0);
  pass = if ltb_ℤ (add64 d.first g.pass_time) now.unix then now.unix else d.pass;
}

-- The read-write transaction of `processGrey`; it returns the plan that was carried out.
pub store_found :
    Engine → Tuple → Bool → Bytes → Time → Plan → Tx → Option Entry → Result (Plan × Tx)
unfolding new_entry seen_again low_prio
store_found g gt sync_out dst_ip now p t none =
    let q = low_prio g gt sync_out dst_ip now p in do t' ← put q.key (new_entry now q) t; ok (q, t')
store_found g gt sync_out dst_ip now p t (some d) = do
  t' ← put p.key (seen_again g now p.spamtrap d) t
  ok (p, t')

unfoldable pub store_grey : Engine → Tuple → Bool → Bytes → Time → Plan → Tx → Result (Plan × Tx)
unfolding store_found
store_grey g gt sync_out dst_ip now p t = do
  d ← get p.key t
  store_found g gt sync_out dst_ip now p t d

pub announced : Engine → Tuple → Bool → Time → Plan → List Event
announced g gt sync_out now p =
    if g.has_syncer && sync_out
    then (if p.spamtrap then trapped gt.ip now p.expire else updated gt now) ∷ []
    else []

pub record Outcome : Type 0 where
  pub result : Result (Unit {0})
  pub store : Store
  pub events : List Event

pub finish : Engine → Tuple → Bool → Time → Result Plan × Store → Outcome
unfolding announced
finish g gt sync_out now (ok p, s) = record {
  result = ok tt;
  store = s;
  events = announced g gt sync_out now p;
}
finish g gt sync_out now (err e, s) = record { result = err e; store = s; events = [] }

pub quiet : Result (Unit {0}) × Store → Outcome
quiet (r, s) = record { result = r; store = s; events = [] }

-- An address that passed its sender policy check.
unfoldable pub white_entry : Engine → Time → Entry
white_entry g now = record {
  first = now.unix;
  pass = now.unix;
  expire = add64 now.unix g.white_expiry;
  bcount = pos 0;
  pcount = pos 0;
}

pub judged : Engine → Ctx → Tuple → Bool → Bytes → Time → Store → Verdict → Plan → Outcome
unfolding finish quiet white_entry store_grey
judged g c gt sync_out dst_ip now s whitelist p =
    quiet
      (update c.at_update (λ t. do t' ← put (ip_key gt.ip) (white_entry g now) t; ok (tt, t')) s)
judged g c gt sync_out dst_ip now s trap p =
    finish g gt sync_out now
      (update c.at_update (store_grey g gt sync_out dst_ip now (trap_plan g gt)) s)
judged g c gt sync_out dst_ip now s go_on p =
    finish g gt sync_out now (update c.at_update (store_grey g gt sync_out dst_ip now p) s)

abbrev pub plan_for : Engine → Tuple → ℕ → Plan
plan_for g gt tc = if tc == 1 then grey_plan g gt else trap_plan g gt

-- What follows the trap check.
pub after_trap_check :
    Engine
    → Option (Bytes → Bytes → Bytes → SpfResult)
    → Ctx
    → Tuple
    → Bool
    → Bytes
    → Time
    → Store
    → Result ℕ
    → Outcome
after_trap_check g spf c gt sync_out dst_ip now s (err e) = record {
  result = err e;
  store = s;
  events = [];
}
after_trap_check g spf c gt sync_out dst_ip now s (ok tc) =
    let p = plan_for g gt tc in
    let v = if sync_out && not p.spamtrap then checked g gt spf else go_on in
    judged g c gt sync_out dst_ip now s v p

unfoldable pub process_grey :
    Engine
    → Option (Bytes → Bytes → Bytes → SpfResult)
    → Ctx
    → Tuple
    → Bool
    → Bytes
    → Time
    → Store
    → Outcome
unfolding after_trap_check judged checked
process_grey g spf c gt sync_out dst_ip now s =
    after_trap_check g spf c gt sync_out dst_ip now s (view c.at_view (trap_check g gt.to) s)

-- The transaction of `processNonGrey`.
pub change : Bool → Bool → ℤ → Bytes → Time → Tx → Option Entry → Result (Unit {0} × Tx)
change spamtrap is_delete expire ip now t none = if is_delete then ok (tt, t) else do
  t' ←
      put (ip_key ip)
        (record {
          first = now.unix;
          pass = if spamtrap then expire else now.unix;
          expire = expire;
          bcount = pos 0;
          pcount = mark spamtrap (pos 0);
        })
        t
  ok (tt, t')
change spamtrap is_delete expire ip now t (some d) =
    if is_delete then (do r ← del (ip_key ip) t; ok (tt, r.1)) else do
      t' ←
          put (ip_key ip)
            (if spamtrap
              then record d { pcount = pcount_trapped; bcount = add64 d.bcount (pos 1) }
              else record d { pcount = add64 d.pcount (pos 1) })
            t
      ok (tt, t')

pub change_addr : Bool → Bool → ℤ → Bytes → Time → Tx → Result (Unit {0} × Tx)
unfolding change
change_addr spamtrap is_delete expire ip now t = do
  d ← get (ip_key ip) t
  change spamtrap is_delete expire ip now t d

-- The expiry that the message carries; 0 where it cannot be read.
pub parsed : Option ℤ → ℤ
parsed none = pos 0
parsed (some z) = z

unfoldable pub process_non_grey :
    Ctx → Bool → Bytes → Bytes → Bool → Time → Store → Result (Unit {0}) × Store
unfolding change_addr parsed
process_non_grey c spamtrap ip expires is_delete now s =
    let expire = parsed (parse_int expires) in
    if not is_delete && eq_ℤ expire (pos 0)
    then (ok tt, s)
    else update c.at_update (change_addr spamtrap is_delete expire ip now) s
