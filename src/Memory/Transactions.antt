-- ===== src/Memory/Transactions.antt =====
-- The single-operation transactions of internal/core/store.go (`Get`, `Put`, `Del`) over the
-- in-process store.
pub mod Atomic
use greyd_v.Base.{ℕ, Bool, true, false, Option, none, some}
use greyd_v.Result.{Result, ok, err, ◌>>=◌}
use greyd_v.Core.{Key, Entry}
use greyd_v.Memory.{Tx, Store, put, get, del, view, update}

unfoldable pub core_get : Bool → Key → Store → Result (Option Entry)
core_get is_cancelled k = view is_cancelled (get k)

unfoldable pub core_put : Bool → Key → Entry → Store → Result (Unit {0}) × Store
core_put is_cancelled k d = update is_cancelled (λ t. do t' ← put k d t; ok (tt, t'))

unfoldable pub core_del : Bool → Key → Store → Result Bool × Store
core_del is_cancelled k = update is_cancelled (del k)
