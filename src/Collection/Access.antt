-- ===== src/Collection/Access.antt =====
-- `_restricted_access_gates`: what the read key may do, and when.
use kraken_knight.Base.{
  ℕ, String, Bool, true, false, ◌&&◌, Option, none, some, List, [], ◌∷◌, ltb, leb, ◌==◌,
  if◌then◌else◌, reconciliation_job_error, Result, ok, err, ◌>>=◌, text_eq, Strings,
}
use kraken_knight.Domain.{Instant}
use kraken_knight.Collection.Gates.{OperationalGate, gate}
use kraken_knight.Collection.Totals.{are_distinct, same_set}

-- `ApiKeyInfoSnapshot`, as far as the gates read it
pub record ApiKeyInfo : Type 0 where
  pub key_name : String
  pub permissions : List String
  pub ip_allowlist : List String
  pub nonce_window : ℕ
  pub valid_until : Option Instant
  pub query_from : Option Instant
  pub query_to : Option Instant

abbrev none_or_test : Option Instant → (Instant → Bool) → Bool
none_or_test none test = true
none_or_test (some t) test = test t

abbrev pub read_only_permissions : List String
read_only_permissions =
    "query-closed-trades" ∷ "query-funds" ∷ "query-ledger" ∷ "query-open-trades" ∷ []

-- What is used of the module `ipaddress`: an address, or the ValueError that it raises, and a
-- network with its prefix length, or nothing where it raises.
pub record Address : Type 0 where
  pub version : ℕ
  pub number : ℕ

pub record Addresses : Type 0 where
  pub ip_address : String → Result Address
  pub ip_network : String → Option (Address × ℕ)

unfoldable pub is_host : Address → Option (Address × ℕ) → Bool
is_host expected none = false
is_host expected (some (network, prefix)) =
    prefix == (if expected.version == 4 then 32 else 128)
    && network.version == expected.version
    && network.number == expected.number

-- `_ip_is_allowlisted`
unfoldable pub ip_is_allowlisted : Strings → Addresses → String → List String → Result Bool
unfolding is_host
ip_is_allowlisted strings addresses ip (only ∷ []) = do
  expected ← addresses.ip_address ip
  ok (is_host expected (addresses.ip_network (strings.strip only)))
ip_is_allowlisted strings addresses ip allowlist = do expected ← addresses.ip_address ip; ok false

-- the two settings are the expected name of the key and the expected address
unfoldable pub restricted_access_gates :
    Strings
    → Addresses
    → (name ip : Option String) → ApiKeyInfo
    → (start stop : Instant) → Result (List OperationalGate)
unfolding gate ip_is_allowlisted
restricted_access_gates strings addresses (some name) (some ip) info start stop = do
  listed ← ip_is_allowlisted strings addresses ip info.ip_allowlist
  ok (
      gate "permissions_exactly_read_only"
        (are_distinct info.permissions && same_set info.permissions read_only_permissions)
        "access permissions must equal the four reviewed read permissions"
      ∷ gate "expected_key_name" (text_eq info.key_name name)
          "access profile name must match the protected configuration"
      ∷ gate "expected_ip_allowlisted" listed
          "the allowlist must equal the protected host's single /32 or /128"
      ∷ gate "nonce_window_zero" (info.nonce_window == 0)
          "the read key must retain the default zero nonce window"
      ∷ gate "access_not_expired" (none_or_test info.valid_until (λ t. ltb stop t))
          "the read key must remain valid through the observation"
      ∷ gate "history_scope_start" (none_or_test info.query_from (λ t. leb t start))
          "the read key must cover the complete requested history start"
      ∷ gate "history_scope_end" (none_or_test info.query_to (λ t. leb stop t))
          "the read key must cover the complete requested history end"
      ∷ [])
restricted_access_gates strings addresses name ip info start stop =
    err (reconciliation_job_error "Kraken read binding is not fully configured")
