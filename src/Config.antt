-- ===== src/Config.antt =====
-- src/kraken_knight/config.py: the settings and their validation, from the environment or not.
--
-- The isinstance tests are outside the model, and so are the digest of the risk settings and the
-- summary for the operator.
pub mod Environment
pub mod Safety
mod Tests
use kraken_knight.Base.{
  ℕ, zero, suc, String, Bool, true, false, ◌&&◌, ◌||◌, not, Option, none, some, List, [], ◌∷◌, leb,
  ◌==◌, if◌then◌else◌, is_none, length, any, type_error, config_error, Result, ok, err, ◌>>=◌, ◌>>◌,
  raise_if, text_eq, one_of, text_join, codes, Strings,
}
use kraken_knight.Ledger.Rows.{RunMode}

-- What is used of `ipaddress`, as the text of an address that is one, and of `pathlib`.
pub record Platform : Type 0 where
  pub strings : Strings
  pub ip_text : String → Option String
  pub expand_user : String → Result String

-- `SecretValue`
pub record SecretValue : Type 0 where
  pub reveal : String

unfoldable pub make_secret : String → Result SecretValue
make_secret value =
    if text_eq value ""
    then err (config_error "secret values cannot be empty")
    else ok (record { reveal = value })

-- `Settings`, whose risk settings have the only values that they can have
pub record Settings : Type 0 where
  pub mode : RunMode
  pub state_dir : String
  pub account_id : String
  pub pair : String
  pub strategy_id : String
  pub live_trading_enabled : Bool
  pub live_trading_confirmation : String
  pub kraken_api_key : Option SecretValue
  pub kraken_api_secret : Option SecretValue
  pub expected_kraken_key_name : Option String
  pub expected_kraken_ip : Option String
  pub expected_kraken_account_id : Option String
  pub expected_legacy_manifest_hash : Option String
  pub expected_funding_manifest_hash : Option String
  pub cutover_quiesced : Bool
  pub legacy_hints_path : Option String

abbrev pub live_confirmation : String
live_confirmation = "I_UNDERSTAND_LIVE_ORDERS"

abbrev pub production_strategy_id : String
production_strategy_id = "btc_cad_daily_momentum_v3_no_drawdown"

-- `hmac.compare_digest` takes texts of ASCII only.
unfoldable pub compare_digest : String → String → Result Bool
compare_digest s t =
    if any (λ c. leb 128 c) (codes s) || any (λ c. leb 128 c) (codes t)
    then err (type_error "comparing strings with non-ASCII characters is not supported")
    else ok (text_eq s t)

abbrev is_digit : ℕ → Bool
is_digit c = leb 48 c && leb c 57

-- `[A-Z0-9]`, and a character of "0123456789abcdef"
abbrev pub is_upper_or_digit : ℕ → Bool
is_upper_or_digit c = is_digit c || (leb 65 c && leb c 90)

abbrev pub is_lower_hexadecimal : ℕ → Bool
is_lower_hexadecimal c = is_digit c || (leb 97 c && leb c 102)

-- `[A-Z0-9]{4}`, with what comes after it
unfoldable pub account_group : List ℕ → Option (List ℕ)
account_group (a ∷ b ∷ c ∷ d ∷ rest) =
    if is_upper_or_digit a && is_upper_or_digit b && is_upper_or_digit c && is_upper_or_digit d
    then some rest
    else none
account_group cs = none

-- `(?:-[A-Z0-9]{4}){n}` up to the end
unfoldable pub more_groups : ℕ → List ℕ → Bool
unfolding account_group
more_groups zero [] = true
more_groups zero (c ∷ cs) = false
more_groups (suc n) [] = false
more_groups (suc n) (c ∷ cs) =
    c == 45 && elim (account_group cs) [ none ↦ false | some rest ↦ more_groups n rest ]

unfoldable pub is_account_id : String → Bool
unfolding account_group more_groups
is_account_id s = elim (account_group (codes s)) [ none ↦ false | some rest ↦ more_groups 3 rest ]

unfoldable pub is_sha256 : String → Bool
is_sha256 s =
    not (not (length (codes s) == 64) || any (λ c. not (is_lower_hexadecimal c)) (codes s))

module _ (platform : Platform) where
  -- a field that is normalized if it is given
  unfoldable pub normalized :
      (String → Option String) → String → Option String → Result (Option String)
  normalized read message none = ok none
  normalized read message (some value) = elim (read value) [
    | none ↦ err (config_error message)
    | some result ↦ ok (some result)
  ]

  unfoldable pub key_name : String → Option String
  key_name s = let name = platform.strings.strip s in if text_eq name "" then none else some name

  unfoldable pub account_text : String → Option String
  unfolding is_account_id
  account_text s =
      let account = platform.strings.upper (platform.strings.strip s) in
      if is_account_id account then some account else none

  unfoldable pub digest_text : String → Option String
  unfolding is_sha256
  digest_text s =
      let digest = platform.strings.lower (platform.strings.strip s) in
      if is_sha256 digest then some digest else none

  -- the test of the fields that do not change
  unfoldable pub check_frozen : Settings → Result (Unit {0})
  check_frozen s = do
    raise_if (text_eq (platform.strings.strip s.account_id) "")
        (config_error "account_id cannot be empty")
    raise_if (not (text_eq s.account_id "dedicated-btc-cad")) (
        config_error
          "Checkpoint 2 freezes account_id; changing the account binding requires review")
    raise_if (not (text_eq s.pair "BTC/CAD"))
        (config_error (text_join production_strategy_id " is frozen to BTC/CAD"))
    raise_if (not (text_eq s.strategy_id production_strategy_id))
        (config_error "unsupported strategy_id")

  -- the test of the mode, which refuses every live one
  unfoldable pub check_mode : RunMode → Settings → (confirmed : Bool) → Result (Unit {0})
  check_mode RunMode.live s confirmed = do
    raise_if (not s.live_trading_enabled || not confirmed) (
        config_error
          "live mode requires both LIVE_TRADING_ENABLED=true and the exact LIVE_TRADING_CONFIRMATION acknowledgement")
    raise_if (is_none s.kraken_api_key || is_none s.kraken_api_secret)
        (config_error "live mode requires Kraken trading credentials")
    err (
        config_error
          "live mode is unavailable in Checkpoint 2; authenticated access is read-only and no exchange-write adapter is implemented")
  check_mode mode s confirmed =
      raise_if (s.live_trading_enabled || not (text_eq s.live_trading_confirmation ""))
        (config_error "live arming fields may only be set when MODE=live")

  unfoldable pub are_paired : Settings → Bool
  are_paired s =
      if is_none s.kraken_api_key
      then is_none s.kraken_api_secret
      else not (is_none s.kraken_api_secret)

  unfoldable pub is_unbound : Settings → Bool
  is_unbound s =
      is_none s.kraken_api_key
      && (not (is_none s.expected_kraken_key_name)
          || not (is_none s.expected_kraken_ip)
          || not (is_none s.expected_kraken_account_id))

  -- what `__post_init__` does after the fields are normalized
  unfoldable pub completed : Settings → (confirmed : Bool) → Result Settings
  unfolding check_mode is_unbound
  completed t confirmed = do
    raise_if (is_unbound t)
        (config_error "Kraken account-binding fields require authenticated credentials")
    mode ← check_mode t.mode t confirmed
    ok t

  -- `Settings.__post_init__`
  unfoldable pub validated : Settings → Result Settings
  unfolding compare_digest normalized key_name account_text digest_text check_frozen are_paired
      completed
  validated s = do
    frozen ← check_frozen s
    confirmed ← compare_digest s.live_trading_confirmation live_confirmation
    raise_if (not (are_paired s)) (
        config_error "Kraken authenticated reads require both KRAKEN_API_KEY and KRAKEN_API_SECRET")
    name ← normalized key_name "EXPECTED_KRAKEN_KEY_NAME cannot be blank" s.expected_kraken_key_name
    ip ←
        normalized (λ t. platform.ip_text (platform.strings.strip t))
          "EXPECTED_KRAKEN_IP must be one IPv4 or IPv6 address" s.expected_kraken_ip
    account ←
        normalized account_text
          "EXPECTED_KRAKEN_ACCOUNT_ID must use Kraken's public wallet-account format"
          s.expected_kraken_account_id
    legacy ←
        normalized digest_text "EXPECTED_LEGACY_MANIFEST_HASH must be a SHA-256 digest"
          s.expected_legacy_manifest_hash
    funding ←
        normalized digest_text "EXPECTED_FUNDING_MANIFEST_HASH must be a SHA-256 digest"
          s.expected_funding_manifest_hash
    completed
        (record s {
          expected_kraken_key_name = name;
          expected_kraken_ip = ip;
          expected_kraken_account_id = account;
          expected_legacy_manifest_hash = legacy;
          expected_funding_manifest_hash = funding;
        })
        confirmed
