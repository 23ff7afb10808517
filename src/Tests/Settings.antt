-- ===== src/Tests/Settings.antt =====
-- Load and New with an environment that sets nothing.
use bcrstracking.Prelude.{pos, ◌<◌, ◌⊎◌, String, none, some, true, ◌≡◌, refl, arith, is_positive}
use bcrstracking.Errors.{ok}
use bcrstracking.Config.{Config, Parsers, is_positive_float, load}
use bcrstracking.Poller.Workers.{worker_count}
use bcrstracking.Settings.{new_settings}
use bcrstracking.Settings.Limits.{is_nan, load-new_settings}

abbrev pub parsers : Parsers
parsers = record { atoi = λ text. none; parse_float = λ text. none; parse_duration = λ text. none }

abbrev pub unset : String → String
unset key = ""

abbrev pub defaults : Config
defaults = record {
  base_url = "https://bts.bcrs.sg";
  location_poll_interval = pos 900000000000;
  bin_poll_interval = pos 300000000000;
  bin_worker_concurrency = pos 8;
  rate_limit_rps = 0x4020000000000000;
  rate_limit_burst = pos 16;
  http_timeout = pos 10000000000;
  click_house_addr = "localhost:9000";
  click_house_database = "bcrs";
  click_house_user = "default";
  click_house_password = "";
  click_house_batch_size = pos 500;
  click_house_flush_interval = pos 5000000000;
  metrics_port = pos 9090;
  log_level = "info";
}

defaults_test : load parsers unset ≡ ok defaults
unfolding load
defaults_test = refl

load-new_settings_example :
    (is_positive_float (new_settings (some defaults)).rps ≡ true)
    × (is_positive (new_settings (some defaults)).burst ≡ true)
    × (is_positive (new_settings (some defaults)).timeout ≡ true)
    × (((new_settings (some defaults)).rps ≡ defaults.rate_limit_rps)
        ⊎ (is_nan defaults.rate_limit_rps ≡ true))
    × (pos (worker_count (some defaults)) ≡ defaults.bin_worker_concurrency)
    × (0 < worker_count (some defaults))
load-new_settings_example = load-new_settings parsers unset defaults defaults_test (omega arith)
