-- ===== src/Greydb/Applied.antt =====
-- One key added or deleted by greydb: `applyKey` of internal/app/greydb/greydb.go.
use greyd_v.Base.{if◌then◌else◌, Bool, Option, none, some, ◌≡◌, ◌≢◌}
use greyd_v.Result.{Result, ok}
use greyd_v.Core.{Key, Entry}
use greyd_v.Kv.RoundTrip.{KeyIsValid}
use greyd_v.Memory.{Tx, get}

-- What an applied key leaves: where it failed, the transaction as it was; else the key has the entry that is
-- announced, or none when it was deleted, and every other key what it had.
abbrev pub Applied : Key → Bool → Tx → Option Entry × Tx → Type 0
Applied k is_del t (none, t') = t' ≡ t
Applied k is_del t (some d, t') =
    (get k t' ≡ ok (if is_del then none else some d))
    × ((j : Key) → KeyIsValid j → j.typ ≢ 5 → k ≢ j → get j t' ≡ get j t)
