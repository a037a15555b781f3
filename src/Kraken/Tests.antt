-- ===== src/Kraken/Tests.antt =====
-- Runs of the nonce source at a clock that goes back, and of a budget that runs out.
use kraken_knight.Base.{◌≡◌, refl, List, [], ◌∷◌, arith, ℤ, pos, ◌+ℤ◌, read_error, err}
use kraken_knight.Kraken.{
  new_nonce, issue, next_nonce, take_nonces, balance_ex, closed_orders, ledgers,
  KrakenRequestBudget, consume_private, consume_all,
}
use kraken_knight.Kraken.Nonces.{IsAscending, take_nonces-IsAscending}
use kraken_knight.Kraken.Budgets.{total_cost, charged, consume_all_lem}

abbrev readings : List ℤ
readings = pos 1000 ∷ pos 900 ∷ pos 1005 ∷ []

nonces_taken : take_nonces new_nonce readings ≡ pos 1000 ∷ pos 1001 ∷ pos 1005 ∷ []
unfolding take_nonces next_nonce issue ◌+ℤ◌
nonces_taken = refl

take_nonces-IsAscending_example : IsAscending new_nonce.last (take_nonces new_nonce readings)
take_nonces-IsAscending_example = take_nonces-IsAscending new_nonce readings

abbrev budget : KrakenRequestBudget
budget = record { private_cost_limit = 8; private_cost_spent = 0 }

budget_exhausted :
    consume_all budget (closed_orders ∷ ledgers ∷ balance_ex ∷ [])
    ≡ err (read_error "Kraken private request cost budget is exhausted")
unfolding consume_all consume_private
budget_exhausted = refl

consume_all_lem_example :
    consume_all budget (closed_orders ∷ ledgers ∷ [])
    ≡ charged budget (total_cost (closed_orders ∷ ledgers ∷ []))
consume_all_lem_example = consume_all_lem budget (closed_orders ∷ ledgers ∷ []) (omega arith)
