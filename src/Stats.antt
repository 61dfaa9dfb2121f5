-- ===== src/Stats.antt =====
-- internal/stats/stats.go: the entries of a store by kind.
use greyd_v.Base.{ℕ, ◌+◌, ◌==◌, ◌||◌, if◌then◌else◌, Bool}
use greyd_v.Base.Int.{eq_ℤ}
use greyd_v.Core.{Key, Entry, pcount_trapped, pcount_spamtrap, pcount_domain}
use greyd_v.Result.{Result, ok, ◌>>=◌}
use greyd_v.Memory.{Tx, Store, iter, view}
use greyd_v.Scan.{walk}

-- Counts
pub record Counts : Type 0 where
  pub grey : ℕ
  pub white : ℕ
  pub trapped : ℕ
  pub spamtrap : ℕ
  pub domain : ℕ

abbrev pub no_counts : Counts
no_counts = record { grey = 0; white = 0; trapped = 0; spamtrap = 0; domain = 0 }

-- The switch on an entry's kind.
unfoldable pub count_entry : Key → Entry → Counts → Counts
count_entry k d c =
    if k.typ == 3
    then record c { grey = c.grey + 1 }
    else if k.typ == 2 || eq_ℤ d.pcount pcount_spamtrap
    then record c { spamtrap = c.spamtrap + 1 }
    else if k.typ == 4 || (k.typ == 5 || eq_ℤ d.pcount pcount_domain)
    then record c { domain = c.domain + 1 }
    else if eq_ℤ d.pcount pcount_trapped
    then record c { trapped = c.trapped + 1 }
    else record c { white = c.white + 1 }

-- The loop over all three kinds of entries, in one transaction.
count_all : Tx → Result Counts
unfolding count_entry
count_all t = do r ← walk (λ k d c u. ok (count_entry k d c, u)) (iter 7 t) no_counts t; ok r.0

-- `Summarize`
unfoldable pub summarize : Bool → Store → Result Counts
unfolding count_all
summarize is_cancelled s = view is_cancelled count_all s
