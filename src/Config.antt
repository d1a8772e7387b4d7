-- ===== src/Config.antt =====
-- The settings of app/core/config.py that the modelled parts read, with their defaults, and the
-- units of time. Times are microseconds since an origin before every stored time.
use pro_lens_backend.Base.{ℕ, ◌*◌, List}

-- A string, by its code points.
abbrev pub Text : Type 0
Text = List ℕ

abbrev pub seconds : ℕ → ℕ
seconds n = n * 1_000_000

pub record Settings : Type 0 where
  pub refresh_token_expire_days : ℕ
  pub login_rate_limit_attempts : ℕ
  pub login_rate_limit_window_seconds : ℕ
  pub outbox_batch_size : ℕ
  pub outbox_max_attempts : ℕ
  pub outbox_retry_base_seconds : ℕ

abbrev pub default_settings : Settings
default_settings = record {
  refresh_token_expire_days = 7;
  login_rate_limit_attempts = 5;
  login_rate_limit_window_seconds = 300;
  outbox_batch_size = 10;
  outbox_max_attempts = 5;
  outbox_retry_base_seconds = 30;
}
