-- ===== src/Settings/Accepted.antt =====
-- What `Load` of internal/settings/settings.go accepts.
use greyd_v.Base.{true, [], ◌≡◌, ◌≢◌, ◌⊎◌, codes}
use greyd_v.Base.Int.{ℤ, pos, ◌≤ℤ◌}
use greyd_v.Config.{Config}
use greyd_v.Settings.Fields.{number_at, text_at, boolean_at, texts_at}
use greyd_v.Settings.{Settings}

-- Between two bounds.
abbrev pub Within : ℤ → ℤ → ℤ → Type 0
Within low high i = (low ≤ℤ i) × (i ≤ℤ high)

-- What the rest of the program relies on in its settings.
pub record Accepted (s : Settings) : Type 0 where
  pub port : Within (pos 0) (pos 65535) (number_at (codes "port") s.global)
  pub config_port : Within (pos 0) (pos 65535) (number_at (codes "config_port") s.global)
  pub sync_port : Within (pos 0) (pos 65535) (number_at (codes "port") s.sync)
  pub monitor_port : Within (pos 0) (pos 65535) (number_at (codes "port") s.monitor)
  pub interval : pos 1 ≤ℤ number_at (codes "interval") s.monitor
  pub error_code :
      (text_at (codes "error_code") s.global ≡ codes "450")
      ⊎ (text_at (codes "error_code") s.global ≡ codes "550")
  pub max_cons : pos 1 ≤ℤ number_at (codes "max_cons") s.global
  pub max_cons_black : pos 0 ≤ℤ number_at (codes "max_cons_black") s.global
  pub max_cons_per_source : pos 0 ≤ℤ number_at (codes "max_cons_per_source") s.global
  pub max_line_length : Within (pos 64) (pos 65536) (number_at (codes "max_line_length") s.global)
  pub max_config_frame : pos 1024 ≤ℤ number_at (codes "max_config_frame") s.global
  pub stutter : Within (pos 0) (pos 10) (number_at (codes "stutter") s.global)
  pub window : pos 0 ≤ℤ number_at (codes "window") s.global
  pub chroot_dir :
      boolean_at (codes "chroot") s.global ≡ true → text_at (codes "chroot_dir") s.global ≢ []
  pub proxies :
      boolean_at (codes "proxy_protocol_enable") s.global ≡ true
      → texts_at (codes "proxy_protocol_permitted_proxies") s.global ≢ []
  pub grey_stutter : Within (pos 0) (pos 100) (number_at (codes "stutter") s.grey)
  pub pass_time : pos 0 ≤ℤ number_at (codes "pass_time") s.grey
  pub grey_expiry : pos 1 ≤ℤ number_at (codes "grey_expiry") s.grey
  pub white_expiry : pos 1 ≤ℤ number_at (codes "white_expiry") s.grey
  pub trap_expiry : pos 1 ≤ℤ number_at (codes "trap_expiry") s.grey
  pub max_domains : pos 1 ≤ℤ number_at (codes "max_domains") s.grey
  pub ttl : Within (pos 1) (pos 255) (number_at (codes "ttl") s.sync)
  pub replay_window : pos 0 ≤ℤ number_at (codes "replay_window") s.sync
  pub max_entries : pos 1 ≤ℤ number_at (codes "max_entries") s.setup
