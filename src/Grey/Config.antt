-- ===== src/Grey/Config.antt =====
-- The settings, the clock and the collaborators of the engine (internal/grey/greylister.go,
-- internal/core/spf.go).
use greyd_v.Base.{ℕ, Bytes, ◌&&◌, ◌||◌, Bool, List, ltb}
use greyd_v.Base.Int.{ℤ, ltb_ℤ, eq_ℤ, add64}
use greyd_v.Core.{Tuple}

-- A time.Time: the seconds of `Unix`, and the nanoseconds within the second.
pub record Time : Type 0 where
  pub unix : ℤ
  pub nano : ℕ

unfoldable pub before : Time → Time → Bool
before a b = ltb_ℤ a.unix b.unix || (eq_ℤ a.unix b.unix && ltb a.nano b.nano)

abbrev pub add_seconds : Time → ℤ → Time
add_seconds t n = record t { unix = add64 t.unix n }

-- The variables of `Greylister` that the messages use.
pub record Engine : Type 0 where
  pub pass_time : ℤ
  pub grey_expiry : ℤ
  pub white_expiry : ℤ
  pub trap_expiry : ℤ
  pub low_prio_mx : Bytes
  pub db_permitted_domains : Bool
  pub spf_enable : Bool
  pub trap_on_softfail : Bool
  pub whitelist_on_pass : Bool
  pub has_syncer : Bool
  pub startup : Time
  pub domains : List Bytes

pub data SpfResult : Type 0 where
  no_result pass soft_fail fail failure : SpfResult

-- What the syncer is told: `Trapped` with the entry's time to live, or `Update`.
pub data Event : Type 0 where
  trapped : Bytes → Time → ℤ → Event
  updated : Tuple → Time → Event

-- Whether the context is cancelled when each of the two transactions begins.
pub record Ctx : Type 0 where
  pub at_view : Bool
  pub at_update : Bool
