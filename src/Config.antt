-- ===== src/Config.antt =====
-- internal/config/config.go: the settings, and Load, which reads them from the environment. An int or
-- a time.Duration is an integer; a float64 is its 64-bit pattern. strconv.Atoi, strconv.ParseFloat and
-- time.ParseDuration are arguments, with `none` for an error.

use bcrstracking.Prelude.{
  ℕ, ℤ, pos, ◌+◌, ◌*◌, ◌^◌, String, Option, Bool, string_keys, nat_keys, ◌==◌, ◌||◌, ◌&&◌, not, ltb,
  leb, is_positive, if◌then◌else◌,
}
use bcrstracking.Prelude.GoMap.{value_or}
use bcrstracking.Errors.{other, Result, ok, err}

pub record Config : Type 0 where
  pub base_url : String
  pub location_poll_interval : ℤ
  pub bin_poll_interval : ℤ
  pub bin_worker_concurrency : ℤ
  pub rate_limit_rps : ℕ
  pub rate_limit_burst : ℤ
  pub http_timeout : ℤ
  pub click_house_addr : String
  pub click_house_database : String
  pub click_house_user : String
  pub click_house_password : String
  pub click_house_batch_size : ℤ
  pub click_house_flush_interval : ℤ
  pub metrics_port : ℤ
  pub log_level : String

-- The pattern of +Inf, and the sign bit, of a float64.
abbrev pub infinity : ℕ
infinity = 0x7FF0000000000000

abbrev pub sign_bit : ℕ
sign_bit = 2 ^ 63

-- f <= 0: a zero of either sign, or a negative number down to -Inf; false for a NaN.
abbrev pub is_not_positive : ℕ → Bool
is_not_positive f = f == 0 || leb sign_bit f && leb f (sign_bit + infinity)

-- f > 0: false for a NaN.
abbrev pub is_positive_float : ℕ → Bool
is_positive_float f = ltb 0 f && leb f infinity

abbrev pub second : ℕ
second = 1000000000

-- The readers of the three kinds of values that are not texts.
pub record Parsers : Type 0 where
  pub atoi : String → Option ℤ
  pub parse_float : String → Option ℕ
  pub parse_duration : String → Option ℤ

-- getEnv; `env` is os.Getenv, which gives the empty text for what is not set.
unfoldable pub get_env : (String → String) → String → String → String
get_env env key def = if env key == "" then def else env key

-- getEnvInt, getEnvFloat and getEnvDuration, which differ in the reader.
unfoldable pub get_env_parsed {ℓ} :
    {A : Type ℓ} → (String → Option A) → (String → String) → String → A → A
get_env_parsed parse env key def = if env key == "" then def else value_or def (parse (env key))

-- 8.0, by its pattern.
abbrev pub eight : ℕ
eight = 0x4020000000000000

-- The settings before they are tested.
unfoldable pub read_config : Parsers → (String → String) → Config
unfolding get_env get_env_parsed
read_config p env = record {
  base_url = get_env env "BCRS_BASE_URL" "https://bts.bcrs.sg";
  location_poll_interval =
      get_env_parsed p.parse_duration env "LOCATION_POLL_INTERVAL" (pos (15 * 60 * second));
  bin_poll_interval =
      get_env_parsed p.parse_duration env "BIN_POLL_INTERVAL" (pos (5 * 60 * second));
  bin_worker_concurrency = get_env_parsed p.atoi env "BIN_WORKER_CONCURRENCY" (pos 8);
  rate_limit_rps = get_env_parsed p.parse_float env "RATE_LIMIT_RPS" eight;
  rate_limit_burst = get_env_parsed p.atoi env "RATE_LIMIT_BURST" (pos 16);
  http_timeout = get_env_parsed p.parse_duration env "HTTP_TIMEOUT" (pos (10 * second));
  click_house_addr = get_env env "CLICKHOUSE_ADDR" "localhost:9000";
  click_house_database = get_env env "CLICKHOUSE_DATABASE" "bcrs";
  click_house_user = get_env env "CLICKHOUSE_USER" "default";
  click_house_password = get_env env "CLICKHOUSE_PASSWORD" "";
  click_house_batch_size = get_env_parsed p.atoi env "CLICKHOUSE_BATCH_SIZE" (pos 500);
  click_house_flush_interval =
      get_env_parsed p.parse_duration env "CLICKHOUSE_FLUSH_INTERVAL" (pos (5 * second));
  metrics_port = get_env_parsed p.atoi env "METRICS_PORT" (pos 9090);
  log_level = get_env env "LOG_LEVEL" "info";
}

-- Load
unfoldable pub load : Parsers → (String → String) → Result Config
unfolding read_config
load p env =
    let cfg = read_config p env in
    if not (is_positive cfg.bin_worker_concurrency)
    then err (other "BIN_WORKER_CONCURRENCY must be > 0")
    else if is_not_positive cfg.rate_limit_rps
    then err (other "RATE_LIMIT_RPS must be > 0")
    else ok cfg
