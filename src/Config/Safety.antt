-- ===== src/Config/Safety.antt =====
-- `Settings.__post_init__`: what the settings are that pass it.
use kraken_knight.Base.{
  String, ◌≡◌, refl, sym, ◌≢◌, inl, inr, Bool, true, false, ◌&&◌, ◌||◌, not, Option, none, some,
  is_none, Error, ok, err, arith, if◌then◌else◌, Ensures, Ensures-ok, Ensures-bind,
  Ensures-raise_if, text_eq, Option-cases,
}
use kraken_knight.Ledger.Rows.{RunMode}
use kraken_knight.Config.{
  Platform, Settings, production_strategy_id, is_account_id, is_sha256, normalized, account_text,
  digest_text, check_frozen, check_mode, are_paired, is_unbound, completed, compare_digest,
  live_confirmation, validated,
}
use kraken_knight.Config.Environment.{
  Environ, variable, variable_or, run_mode, parse_bool, optional_secret, optional_path, from_env,
}

-- a field that is absent or passes a test
abbrev pub if_given : (String → Bool) → Option String → Bool
if_given test none = true
if_given test (some s) = test s

pub record IsSafe (t : Settings) : Type 0 where
  pub not_live : t.mode ≢ RunMode.live
  pub not_enabled : t.live_trading_enabled ≡ false
  pub not_confirmed : text_eq t.live_trading_confirmation "" ≡ true
  pub account_frozen : text_eq t.account_id "dedicated-btc-cad" ≡ true
  pub pair_frozen : text_eq t.pair "BTC/CAD" ≡ true
  pub strategy_frozen : text_eq t.strategy_id production_strategy_id ≡ true
  pub paired : is_none t.kraken_api_key ≡ is_none t.kraken_api_secret
  -- without credentials no field binds an account
  pub bound :
      is_none t.kraken_api_key
        && (not (is_none t.expected_kraken_key_name)
            || not (is_none t.expected_kraken_ip)
            || not (is_none t.expected_kraken_account_id))
      ≡ false
  pub account_valid : if_given is_account_id t.expected_kraken_account_id ≡ true
  pub legacy_valid : if_given is_sha256 t.expected_legacy_manifest_hash ≡ true
  pub funding_valid : if_given is_sha256 t.expected_funding_manifest_hash ≡ true

not-true : (b : Bool) → not b ≡ false → b ≡ true
not-true true h = refl
not-true false h = sym h

or-false : (a b : Bool) → a || b ≡ false → (a ≡ false) × (b ≡ false)
or-false false b h = (refl, h)
or-false true b h = cc

refused {ℓ κ} : {A : Type ℓ} {P : A → Type κ} (e : Error) → Ensures P (err e)
refused e = record { at = λ a raised. cc }

check_mode-enabled :
    (platform : Platform) (mode : RunMode) (s : Settings) (confirmed : Bool) (u : Unit {0})
    → check_mode platform mode s confirmed ≡ ok u
    → s.live_trading_enabled ≡ false
unfolding check_mode
check_mode-enabled platform mode s confirmed u h = ground arith

check_mode-confirmation :
    (platform : Platform) (mode : RunMode) (s : Settings) (confirmed : Bool) (u : Unit {0})
    → check_mode platform mode s confirmed ≡ ok u
    → text_eq s.live_trading_confirmation "" ≡ true
unfolding check_mode
check_mode-confirmation platform mode s confirmed u h = ground arith

check_mode-live :
    (platform : Platform) (mode : RunMode) (s : Settings) (confirmed : Bool) (u : Unit {0})
    → check_mode platform mode s confirmed ≡ ok u
    → mode ≢ RunMode.live
unfolding check_mode
check_mode-live platform mode s confirmed u h same = ground arith

normalized-passes :
    (platform : Platform) (test : String → Bool) (read : String → Option String) (message : String)
    (value : Option String)
    → ((s r : String) → read s ≡ some r → test r ≡ true)
    → Ensures (λ result. if_given test result ≡ true) (normalized platform read message value)
unfolding normalized
normalized-passes platform test read message none f = Ensures-ok none refl
normalized-passes platform test read message (some s) f = elim (Option-cases (read s)) [
  | inl missing ↦ rw (normalized, missing) (refused _)
  | inr (r, found) ↦ rw (normalized, found) (Ensures-ok (some r) (f s r found))
]

-- a text that is kept if it passes a test
if-some :
    (test : String → Bool) (s r : String)
    → (if test s then some s else none) ≡ some r
    → test r ≡ true
if-some test s r h = ground arith

account_text-passes :
    (platform : Platform) (s r : String) → account_text platform s ≡ some r → is_account_id r ≡ true
unfolding account_text
account_text-passes platform s r h =
    if-some is_account_id (platform.strings.upper (platform.strings.strip s)) r h

digest_text-passes :
    (platform : Platform) (s r : String) → digest_text platform s ≡ some r → is_sha256 r ≡ true
unfolding digest_text
digest_text-passes platform s r h =
    if-some is_sha256 (platform.strings.lower (platform.strings.strip s)) r h

check_frozen-IsFrozen :
    (platform : Platform) (s : Settings) (u : Unit {0})
    → check_frozen platform s ≡ ok u
    → (text_eq s.account_id "dedicated-btc-cad" ≡ true)
      × (text_eq s.pair "BTC/CAD" ≡ true)
      × (text_eq s.strategy_id production_strategy_id ≡ true)
unfolding check_frozen
check_frozen-IsFrozen platform s u h = ground arith

are_paired-eq :
    (platform : Platform) (s : Settings)
    → not (are_paired platform s) ≡ false
    → is_none s.kraken_api_key ≡ is_none s.kraken_api_secret
unfolding are_paired
are_paired-eq platform s h = ground arith

-- what the steps before the last two establish
record IsNormal (t : Settings) : Type 0 where
  frozen :
      (text_eq t.account_id "dedicated-btc-cad" ≡ true)
      × (text_eq t.pair "BTC/CAD" ≡ true)
      × (text_eq t.strategy_id production_strategy_id ≡ true)
  paired : is_none t.kraken_api_key ≡ is_none t.kraken_api_secret
  account : if_given is_account_id t.expected_kraken_account_id ≡ true
  legacy : if_given is_sha256 t.expected_legacy_manifest_hash ≡ true
  funding : if_given is_sha256 t.expected_funding_manifest_hash ≡ true

completed-IsSafe :
    (platform : Platform) (t : Settings) (confirmed : Bool)
    → IsNormal t
    → Ensures IsSafe (completed platform t confirmed)
unfolding completed is_unbound
completed-IsSafe platform t confirmed n = Ensures-raise_if (is_unbound platform t) _ _ λ bound.
    Ensures-bind (check_mode platform t.mode t confirmed) _ λ v mode. Ensures-ok t (record {
      not_live = check_mode-live platform t.mode t confirmed v mode;
      not_enabled = check_mode-enabled platform t.mode t confirmed v mode;
      not_confirmed = check_mode-confirmation platform t.mode t confirmed v mode;
      account_frozen = n.frozen.0;
      pair_frozen = n.frozen.1;
      strategy_frozen = n.frozen.2;
      paired = n.paired;
      bound = bound;
      account_valid = n.account;
      legacy_valid = n.legacy;
      funding_valid = n.funding;
    })

pub validated-IsSafe : (platform : Platform) (s : Settings) → Ensures IsSafe (validated platform s)
unfolding validated
validated-IsSafe platform s =
    let digest = normalized-passes platform is_sha256 (digest_text platform) in
    Ensures-bind (check_frozen platform s) _ λ u frozen.
      Ensures-bind (compare_digest s.live_trading_confirmation live_confirmation) _ λ c same.
        Ensures-raise_if (not (are_paired platform s)) _ _ λ paired.
          Ensures-bind (normalized platform _ _ s.expected_kraken_key_name) _ λ name named.
            Ensures-bind (normalized platform _ _ s.expected_kraken_ip) _ λ ip located.
              Ensures-bind (normalized platform _ _ s.expected_kraken_account_id) _ λ account a.
                Ensures-bind (normalized platform _ _ s.expected_legacy_manifest_hash) _ λ legacy l.
                  Ensures-bind (normalized platform _ _ s.expected_funding_manifest_hash) _
                    λ funding f.
                      completed-IsSafe platform
                        (record s {
                          expected_kraken_key_name = name;
                          expected_kraken_ip = ip;
                          expected_kraken_account_id = account;
                          expected_legacy_manifest_hash = legacy;
                          expected_funding_manifest_hash = funding;
                        })
                        c
                        (record {
                          frozen = check_frozen-IsFrozen platform s u frozen;
                          paired = are_paired-eq platform s paired;
                          account =
                              (normalized-passes platform is_account_id (account_text platform) _ _
                                  (account_text-passes platform)).at
                                account a;
                          legacy = (digest _ _ (digest_text-passes platform)).at legacy l;
                          funding = (digest _ _ (digest_text-passes platform)).at funding f;
                        })

-- Settings that are read from an environment are not live, whatever its variables hold: their mode
-- is not LIVE, and the two fields that arm it are false and empty. The account, the pair and the
-- strategy are the frozen ones, there are both credentials or neither, no field binds an account
-- without them, and the account identifier and the two digests are well formed.
pub from_env-IsSafe :
    (platform : Platform) (environ : Environ) (t : Settings)
    → from_env platform environ ≡ ok t
    → IsSafe t
unfolding from_env
from_env-IsSafe platform environ t h =
    let strip = platform.strings.strip in
    let state = strip (variable_or environ "STATE_DIR" "var") in
    let mode_text = platform.strings.lower (strip (variable_or environ "MODE" "shadow")) in
    let enabled_text = variable_or environ "LIVE_TRADING_ENABLED" "false" in
    let quiesced_text = variable_or environ "CUTOVER_QUIESCED" "false" in
    let reads : Ensures IsSafe (from_env platform environ) =
      (Ensures-bind (run_mode mode_text) _ λ mode a.
        Ensures-raise_if (text_eq state "") _ _ λ present.
          Ensures-bind (platform.expand_user state) _ λ state_dir b.
            Ensures-bind (parse_bool platform enabled_text "LIVE_TRADING_ENABLED") _ λ enabled c.
              Ensures-bind (optional_secret platform (variable environ "KRAKEN_API_KEY")) _ λ key d.
                Ensures-bind (optional_secret platform (variable environ "KRAKEN_API_SECRET")) _
                  λ secret e.
                    Ensures-bind (parse_bool platform quiesced_text "CUTOVER_QUIESCED") _
                      λ quiesced f.
                        Ensures-bind (optional_path platform (variable environ "LEGACY_HINTS_PATH"))
                          _ λ hints g. validated-IsSafe platform _) in
    reads.at t h
