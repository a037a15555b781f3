-- ===== src/Config/Tests.antt =====
-- The default settings, and each theorem applied to them.
use kraken_knight.Base.{◌≡◌, refl, true, false, none, some, ok, err, config_error, text_eq}
use kraken_knight.Ledger.Rows.{RunMode}
use kraken_knight.Config.{
  Platform, Settings, make_secret, production_strategy_id, live_confirmation, account_group,
  more_groups, is_account_id, is_sha256, normalized, key_name, account_text, digest_text,
  compare_digest, check_frozen, check_mode, are_paired, is_unbound, completed, validated,
}
use kraken_knight.Config.Environment.{
  Environ, read_mode, run_mode, parse_bool, optional_text, optional_secret, optional_path, from_env,
}
use kraken_knight.Config.Safety.{IsSafe, from_env-IsSafe}

abbrev plain : Platform
plain = record {
  strings = record {
    strip = λ s. s;
    lower = λ s. s;
    upper = λ s. s;
    replace_dashes = λ s. s;
    collapse = λ s. s;
    of_ℕ = λ n. "0";
  };
  ip_text = λ s. some s;
  expand_user = λ s. ok s;
}

abbrev empty : Environ
empty name = none

abbrev with_credentials : Environ
with_credentials name = elim (text_eq name "KRAKEN_KNIGHT_KRAKEN_API_KEY") [
  | true ↦ some "key"
  | false ↦ elim (text_eq name "KRAKEN_KNIGHT_KRAKEN_API_SECRET") [
    | true ↦ some "secret"
    | false ↦ elim (text_eq name "KRAKEN_KNIGHT_EXPECTED_KRAKEN_ACCOUNT_ID") [
      | true ↦ some "AB12-CD34-EF56-GH78"
      | false ↦ none
    ]
  ]
]

-- the credentials are set, and the mode is LIVE with both fields that arm it
abbrev armed : Environ
armed name = elim (text_eq name "KRAKEN_KNIGHT_MODE") [
  | true ↦ some "live"
  | false ↦ elim (text_eq name "KRAKEN_KNIGHT_LIVE_TRADING_ENABLED") [
    | true ↦ some "true"
    | false ↦ elim (text_eq name "KRAKEN_KNIGHT_LIVE_TRADING_CONFIRMATION") [
      | true ↦ some live_confirmation
      | false ↦ with_credentials name
    ]
  ]
]

abbrev bound_settings : Settings
bound_settings = record {
  mode = RunMode.shadow;
  state_dir = "var";
  account_id = "dedicated-btc-cad";
  pair = "BTC/CAD";
  strategy_id = production_strategy_id;
  live_trading_enabled = false;
  live_trading_confirmation = "";
  kraken_api_key = some (record { reveal = "key" });
  kraken_api_secret = some (record { reveal = "secret" });
  expected_kraken_key_name = none;
  expected_kraken_ip = none;
  expected_kraken_account_id = some "AB12-CD34-EF56-GH78";
  expected_legacy_manifest_hash = none;
  expected_funding_manifest_hash = none;
  cutover_quiesced = false;
  legacy_hints_path = none;
}

bound : from_env plain with_credentials ≡ ok bound_settings
unfolding from_env validated read_mode run_mode parse_bool optional_text optional_secret
    optional_path make_secret account_group more_groups is_account_id is_sha256 normalized key_name
    account_text digest_text compare_digest check_frozen check_mode are_paired is_unbound completed
bound = refl

refused :
    from_env plain armed
    ≡ err (
        config_error
          "live mode is unavailable in Checkpoint 2; authenticated access is read-only and no exchange-write adapter is implemented")
unfolding from_env validated read_mode run_mode parse_bool optional_text optional_secret
    optional_path make_secret account_group more_groups is_account_id is_sha256 normalized key_name
    account_text digest_text compare_digest check_frozen check_mode are_paired is_unbound completed
refused = refl

short : is_account_id "AB12-CD34-EF56" ≡ false
unfolding is_account_id account_group more_groups
short = refl

from_env-IsSafe_example : IsSafe bound_settings
from_env-IsSafe_example = from_env-IsSafe plain with_credentials bound_settings bound
