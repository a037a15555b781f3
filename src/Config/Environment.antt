-- ===== src/Config/Environment.antt =====
-- `Settings.from_env` and the helpers that read one variable.
use kraken_knight.Base.{
  String, Bool, true, false, Option, none, some, [], ◌∷◌, if◌then◌else◌, config_error, Result, ok,
  err, ◌>>=◌, ◌>>◌, raise_if, text_eq, one_of, text_join,
}
use kraken_knight.Ledger.Rows.{RunMode}
use kraken_knight.Config.{
  Platform, SecretValue, make_secret, Settings, production_strategy_id, validated,
}

-- the environment: the value of a variable, if it is set
abbrev pub Environ : Type 0
Environ = String → Option String

-- `values.get(ENV_PREFIX + name)`
abbrev pub variable : Environ → String → Option String
variable environ name = environ (text_join "KRAKEN_KNIGHT_" name)

abbrev pub variable_or : Environ → String → String → String
variable_or environ name default = elim (variable environ name) [ none ↦ default | some v ↦ v ]

-- `RunMode(text)`
unfoldable pub read_mode : String → Option RunMode
read_mode s =
    if text_eq s "backtest"
    then some RunMode.backtest
    else if text_eq s "paper"
    then some RunMode.paper
    else if text_eq s "shadow"
    then some RunMode.shadow
    else if text_eq s "validate"
    then some RunMode.validate
    else if text_eq s "live"
    then some RunMode.live
    else none

unfoldable pub run_mode : String → Result RunMode
unfolding read_mode
run_mode s = elim (read_mode s) [
  | none ↦
      err
        (config_error "unsupported mode; expected one of: backtest, paper, shadow, validate, live")
  | some mode ↦ ok mode
]

module _ (platform : Platform) where
  abbrev strip : String → String
  strip s = platform.strings.strip s

  unfoldable pub parse_bool : String → String → Result Bool
  parse_bool raw field =
      let value = platform.strings.lower (strip raw) in
      if one_of value ("1" ∷ "true" ∷ "yes" ∷ "on" ∷ [])
      then ok true
      else if one_of value ("0" ∷ "false" ∷ "no" ∷ "off" ∷ [])
      then ok false
      else err (config_error (text_join field " must be true or false"))

  unfoldable pub optional_text : Option String → Option String
  optional_text none = none
  optional_text (some raw) = if text_eq (strip raw) "" then none else some (strip raw)

  unfoldable pub optional_secret : Option String → Result (Option SecretValue)
  optional_secret none = ok none
  optional_secret (some raw) =
      if text_eq (strip raw) ""
      then ok none
      else (make_secret (strip raw) >>= λ secret. ok (some secret))

  unfoldable pub optional_path : Option String → Result (Option String)
  optional_path none = ok none
  optional_path (some raw) =
      if text_eq (strip raw) ""
      then ok none
      else (platform.expand_user (strip raw) >>= λ path. ok (some path))

  -- `Settings.from_env`
  unfoldable pub from_env : Environ → Result Settings
  unfolding run_mode parse_bool optional_text optional_secret optional_path
  from_env environ = do
    mode ← run_mode (platform.strings.lower (strip (variable_or environ "MODE" "shadow")))
    let raw_state_dir = strip (variable_or environ "STATE_DIR" "var")
    raise_if (text_eq raw_state_dir "") (config_error "STATE_DIR cannot be empty")
    state_dir ← platform.expand_user raw_state_dir
    enabled ← parse_bool (variable_or environ "LIVE_TRADING_ENABLED" "false") "LIVE_TRADING_ENABLED"
    key ← optional_secret (variable environ "KRAKEN_API_KEY")
    secret ← optional_secret (variable environ "KRAKEN_API_SECRET")
    quiesced ← parse_bool (variable_or environ "CUTOVER_QUIESCED" "false") "CUTOVER_QUIESCED"
    hints ← optional_path (variable environ "LEGACY_HINTS_PATH")
    validated platform (record {
      mode = mode;
      state_dir = state_dir;
      account_id = strip (variable_or environ "ACCOUNT_ID" "dedicated-btc-cad");
      pair = platform.strings.upper (strip (variable_or environ "PAIR" "BTC/CAD"));
      strategy_id = strip (variable_or environ "STRATEGY_ID" production_strategy_id);
      live_trading_enabled = enabled;
      live_trading_confirmation = variable_or environ "LIVE_TRADING_CONFIRMATION" "";
      kraken_api_key = key;
      kraken_api_secret = secret;
      expected_kraken_key_name = optional_text (variable environ "EXPECTED_KRAKEN_KEY_NAME");
      expected_kraken_ip = optional_text (variable environ "EXPECTED_KRAKEN_IP");
      expected_kraken_account_id = optional_text (variable environ "EXPECTED_KRAKEN_ACCOUNT_ID");
      expected_legacy_manifest_hash =
          optional_text (variable environ "EXPECTED_LEGACY_MANIFEST_HASH");
      expected_funding_manifest_hash =
          optional_text (variable environ "EXPECTED_FUNDING_MANIFEST_HASH");
      cutover_quiesced = quiesced;
      legacy_hints_path = hints;
    })
