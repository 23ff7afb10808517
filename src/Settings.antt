-- ===== src/Settings.antt =====
-- The settings with which New of internal/client/bcrs_client.go makes a client, and their defaults.
-- The limits of the transport are constants of the HTTP library's and left out.
pub mod Limits
use bcrstracking.Prelude.{
  ℕ, ℤ, pos, ◌*◌, String, Option, none, some, Bool, is_positive, if◌then◌else◌,
}
use bcrstracking.Config.{Config, second, eight, is_positive_float}
use bcrstracking.Strings.{trim_right, is_slash}

pub record Settings : Type 0 where
  pub base_url : String
  pub timeout : ℤ
  pub rps : ℕ
  pub burst : ℤ
  pub initial_backoff : ℤ

unfoldable pub new_settings : Option Config → Settings
unfolding trim_right
new_settings none = record {
  base_url = "";
  timeout = pos (10 * second);
  rps = eight;
  burst = pos 16;
  initial_backoff = pos 500000000;
}
new_settings (some cfg) = record {
  base_url = trim_right is_slash cfg.base_url;
  timeout = if is_positive cfg.http_timeout then cfg.http_timeout else pos (10 * second);
  rps = if is_positive_float cfg.rate_limit_rps then cfg.rate_limit_rps else eight;
  burst = if is_positive cfg.rate_limit_burst then cfg.rate_limit_burst else pos 16;
  initial_backoff = pos 500000000;
}
