-- ===== src/Collection/Gates.antt =====
-- The operational gates and the status that they give.
use kraken_knight.Base.{
  String, ◌≡◌, refl, sym, subst, ◌↔◌, inl, inr, Bool, true, false, ◌&&◌, ◌||◌, not, Option, none,
  some, List, [], ◌∷◌, arith, ◌==◌, if◌then◌else◌, is_none, Bool-cases, length, any, text_eq,
  keep_if,
}
use kraken_knight.Reconciliation.Codes.{Status, clean, unresolved, disarmed}
use kraken_knight.Collection.Records.{WalletAccount}

pub record OperationalGate : Type 0 where
  pub name : String
  pub passed : Bool
  pub failure_status : Status
  pub detail : String

-- `_gate` with the default status
unfoldable pub gate : String → Bool → String → OperationalGate
gate name passed detail = record {
  name = name;
  passed = passed;
  failure_status = disarmed;
  detail = detail;
}

abbrev pub is_disarmed : Status → Bool
is_disarmed disarmed = true
is_disarmed s = false

abbrev pub is_unresolved : Status → Bool
is_unresolved unresolved = true
is_unresolved s = false

abbrev pub failed_gates : List OperationalGate → List OperationalGate
failed_gates gates = keep_if (λ (g : OperationalGate). not g.passed) gates

abbrev given_status : Option Status → (Status → Bool) → Bool
given_status none test = false
given_status (some s) test = test s

-- `_status_from_gates`
unfoldable pub status_from_gates : List OperationalGate → Option Status → Status
status_from_gates gates core =
    let failed = failed_gates gates in
    if given_status core is_disarmed
      || any (λ (g : OperationalGate). is_disarmed g.failure_status) failed
    then disarmed
    else if given_status core is_unresolved || not (length failed == 0)
    then unresolved
    else if is_none core
    then disarmed
    else clean

-- `_account_binding_gates`
unfoldable pub account_binding_gates :
    (accounts : List WalletAccount) (complete : Bool) (expected binding : String)
    (prior : List String)
    → List OperationalGate
unfolding gate
account_binding_gates accounts complete expected binding prior =
    let active = keep_if (λ (a : WalletAccount). text_eq a.status "active" && a.active) accounts in
    let main = keep_if (λ (a : WalletAccount). text_eq a.account_type "main") active in
    gate "wallet_accounts_page_complete" complete
      "the wallet-account identity page must be complete"
    ∷ gate "one_active_wallet" (length active == 1)
        "the authenticated user must expose exactly one active wallet so unscoped balance, order, and trade reads cannot refer to another default wallet"
    ∷ gate "one_active_main_wallet" (length main == 1)
        "the authenticated Kraken user must expose exactly one active main wallet"
    ∷ gate "expected_wallet_account"
        (length main == 1 && any (λ (a : WalletAccount). text_eq a.account_id expected) main)
        "the active main wallet must equal the operator-pinned public account ID"
    ∷ gate "account_binding_continuity" (not (any (λ h. not (text_eq h binding)) prior))
        "the wallet-account fingerprint must match every prior local snapshot"
    ∷ []

length-failed :
    (gates : List OperationalGate)
    → (length (failed_gates gates) == 0) ≡ true
    → any (λ (g : OperationalGate). not g.passed) gates ≡ false
length-failed [] h = refl
length-failed (g ∷ gates) h = elim (Bool-cases g.passed) [
  | inl passed ↦ ground (arith, h, passed, length-failed gates)
  | inr failed ↦ absurd (ground (arith, h, failed))
]

-- The gates pass and the comparison is clean: nothing else gives a clean status.
status-clean :
    (gates : List OperationalGate) (core : Option Status)
    → status_from_gates gates core ≡ clean
    → (core ≡ some clean) × (any (λ (g : OperationalGate). not g.passed) gates ≡ false)
unfolding status_from_gates
status-clean gates none h = absurd (ground (arith, h))
status-clean gates (some disarmed) h = absurd (ground (arith, h))
status-clean gates (some unresolved) h = absurd (ground (arith, h))
status-clean gates (some clean) h =
    let empty : (length (failed_gates gates) == 0) ≡ true = ground (arith, h) in
    (refl, length-failed gates empty)

no_failed :
    (gates : List OperationalGate)
    → any (λ (g : OperationalGate). not g.passed) gates ≡ false
    → failed_gates gates ≡ []
no_failed [] h = refl
no_failed (g ∷ gates) h =
    let rest : any (λ (g : OperationalGate). not g.passed) gates ≡ false = ground (arith, h) in
    ground (arith, h, no_failed gates rest)

clean-status :
    (gates : List OperationalGate)
    → any (λ (g : OperationalGate). not g.passed) gates ≡ false
    → status_from_gates gates (some clean) ≡ clean
unfolding status_from_gates
clean-status gates h = let e = no_failed gates h in ground (arith, e)

-- The status fails closed. It is CLEAN exactly if the account was compared, the comparison was
-- CLEAN, and every gate passed; a gate that failed, a comparison that was not CLEAN, and one that
-- was never made each prevent it.
pub status_from_gates_iff :
    (gates : List OperationalGate) (core : Option Status)
    → (status_from_gates gates core ≡ clean)
      ↔ ((core ≡ some clean) × (any (λ (g : OperationalGate). not g.passed) gates ≡ false))
status_from_gates_iff gates core = (
  status-clean gates core,
  λ h. subst (λ c. status_from_gates gates c ≡ clean) (sym (h.0)) (clean-status gates h.1),
)
