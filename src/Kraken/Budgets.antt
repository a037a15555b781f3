-- ===== src/Kraken/Budgets.antt =====
-- What a sequence of private requests costs, against the limit.
use kraken_knight.Base.{
  ℕ, ◌+◌, ◌≤◌, ◌≡◌, refl, inl, inr, true, List, [], ◌∷◌, arith, ltb, if◌then◌else◌, ltb→lt, lt→ltb,
  ltb→le, Bool-cases, read_error, Result, ok, err,
}
use kraken_knight.Kraken.{
  PrivateEndpoint, endpoint_cost, KrakenRequestBudget, consume_private, consume_all,
}

abbrev pub total_cost : List PrivateEndpoint → ℕ
total_cost [] = 0
total_cost (endpoint ∷ rest) = endpoint_cost endpoint + total_cost rest

-- The cost of every call in a list, as one request.
abbrev pub charged : KrakenRequestBudget → ℕ → Result KrakenRequestBudget
charged b cost =
    if ltb b.private_cost_limit (b.private_cost_spent + cost)
    then err (read_error "Kraken private request cost budget is exhausted")
    else ok (record b { private_cost_spent = b.private_cost_spent + cost })

-- From a budget within its limit, a sequence of requests goes through exactly when its total cost
-- fits, which is then spent; otherwise some request raises.
pub consume_all_lem :
    (b : KrakenRequestBudget) (endpoints : List PrivateEndpoint)
    → b.private_cost_spent ≤ b.private_cost_limit
    → consume_all b endpoints ≡ charged b (total_cost endpoints)
unfolding consume_all consume_private
consume_all_lem b [] h = ground arith
consume_all_lem b (endpoint ∷ rest) h =
    let c = endpoint_cost endpoint in
    let t = total_cost rest in
    let assoc : b.private_cost_spent + (c + t) ≡ b.private_cost_spent + c + t = omega arith in
    elim (Bool-cases (ltb b.private_cost_limit (b.private_cost_spent + c))) [
      | inl over ↦
          let more = ltb→lt b.private_cost_limit (b.private_cost_spent + c) over in
          let all : ltb b.private_cost_limit (b.private_cost_spent + (c + t)) ≡ true =
            lt→ltb _ _ (omega arith) in
          rw (over, all) refl
      | inr fits ↦
          let within = ltb→le b.private_cost_limit (b.private_cost_spent + c) fits in
          rw (fits, assoc)
            (consume_all_lem (record b { private_cost_spent = b.private_cost_spent + c }) rest
              within)
    ]
