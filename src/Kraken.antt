-- ===== src/Kraken.antt =====
-- src/kraken_knight/kraken_read.py: the nonce source and the cost budget of the private requests.
--
-- Each call runs under the object's lock, so the calls of all threads are one sequence of steps.
pub mod Nonces
pub mod Budgets
mod Tests
use kraken_knight.Base.{
  ℕ, suc, ◌+◌, ◌-◌, ◌^◌, ◌||◌, List, [], ◌∷◌, ltb, if◌then◌else◌, ℤ, pos, negsuc, ltb_ℤ, ◌+ℤ◌,
  value_error, read_error, Result, ok, err, ◌>>=◌, ◌>>◌, raise_if,
}

-- `MAX_UNSIGNED_64`
abbrev pub max_unsigned_64 : ℤ
max_unsigned_64 = pos (2 ^ 64 - 1)

-- `MonotonicNonce`, less its clock and its lock
pub record MonotonicNonce : Type 0 where
  pub last : ℤ

abbrev pub new_nonce : MonotonicNonce
new_nonce = record { last = negsuc 0 }

abbrev pub max_ℤ : ℤ → ℤ → ℤ
max_ℤ a b = if ltb_ℤ a b then b else a

-- The check of a nonce, which then becomes the last one.
unfoldable pub issue : ℤ → Result (MonotonicNonce × ℤ)
issue nonce = do
  raise_if (ltb_ℤ nonce (pos 0) || ltb_ℤ max_unsigned_64 nonce)
      (read_error "nonce source produced an out-of-range value")
  ok (record { last = nonce }, nonce)

-- `MonotonicNonce.__call__`, at the clock's reading in milliseconds
unfoldable pub next_nonce : MonotonicNonce → ℤ → Result (MonotonicNonce × ℤ)
next_nonce s candidate = issue (max_ℤ candidate (s.last +ℤ pos 1))

-- the calls at a sequence of readings, up to the first that raises
unfoldable pub take_nonces : MonotonicNonce → List ℤ → List ℤ
take_nonces s [] = []
take_nonces s (candidate ∷ rest) = elim (next_nonce s candidate) [
  | ok (s', nonce) ↦ nonce ∷ take_nonces s' rest
  | err e ↦ []
]

pub data PrivateEndpoint : Type 0 where
  balance_ex closed_orders get_api_key_info ledgers list_wallet_accounts : PrivateEndpoint
  open_orders query_orders trades_history trade_volume : PrivateEndpoint

-- `PRIVATE_ENDPOINT_COSTS`
abbrev pub endpoint_cost : PrivateEndpoint → ℕ
endpoint_cost closed_orders = 4
endpoint_cost ledgers = 4
endpoint_cost trades_history = 4
endpoint_cost endpoint = 1

-- `KrakenRequestBudget`, less its lock
pub record KrakenRequestBudget : Type 0 where
  pub private_cost_limit : ℕ
  pub private_cost_spent : ℕ

-- `KrakenRequestBudget.__init__`
unfoldable pub make_budget : ℤ → Result KrakenRequestBudget
make_budget (pos (suc n)) = ok (record { private_cost_limit = suc n; private_cost_spent = 0 })
make_budget z = err (value_error "private_cost_limit must be positive")

-- `KrakenRequestBudget.consume_private`
unfoldable pub consume_private : KrakenRequestBudget → PrivateEndpoint → Result KrakenRequestBudget
consume_private b endpoint = do
  let cost = endpoint_cost endpoint
  raise_if (ltb b.private_cost_limit (b.private_cost_spent + cost))
      (read_error "Kraken private request cost budget is exhausted")
  ok (record b { private_cost_spent = b.private_cost_spent + cost })

-- the calls of a workflow, which stops at the first that raises
unfoldable pub consume_all : KrakenRequestBudget → List PrivateEndpoint → Result KrakenRequestBudget
consume_all b [] = ok b
consume_all b (endpoint ∷ rest) = do next ← consume_private b endpoint; consume_all next rest
