-- ===== src/Kraken/Nonces.antt =====
-- The nonces of one key increase, whatever the clock reads.
use kraken_knight.Base.{
  ◌≡◌, sym, ap, ◌∙◌, subst, inl, inr, true, ◌||◌, List, [], ◌∷◌, arith, Bool-cases, ℤ, pos, ltb_ℤ,
  leb_ℤ, +ℤ_parts, ◌+ℤ◌, Result, ok, err, Result-cases,
}
use kraken_knight.Kraken.{max_unsigned_64, MonotonicNonce, max_ℤ, issue, next_nonce, take_nonces}

-- Each number is above the ones before it, and fits in 64 bits.
abbrev pub IsAscending : ℤ → List ℤ → Type 0
IsAscending last [] = Unit {0}
IsAscending last (n ∷ ns) =
    (ltb_ℤ last n ≡ true)
    × (leb_ℤ (pos 0) n ≡ true)
    × (leb_ℤ n max_unsigned_64 ≡ true)
    × IsAscending n ns

above_last : (last candidate : ℤ) → ltb_ℤ last (max_ℤ candidate (last +ℤ pos 1)) ≡ true
above_last last candidate = ground (arith, +ℤ_parts last (pos 1))

issue-keeps :
    (m n : ℤ) (s' : MonotonicNonce)
    → issue m ≡ ok (s', n)
    → (s'.last ≡ n) × (m ≡ n) × (leb_ℤ (pos 0) n ≡ true) × (leb_ℤ n max_unsigned_64 ≡ true)
unfolding issue
issue-keeps m n s' h = elim (Bool-cases (ltb_ℤ m (pos 0) || ltb_ℤ max_unsigned_64 m)) [
  | inl out ↦ absurd (ground (arith, out, h))
  | inr within ↦
      let same : m ≡ n = ground (arith, within, h) in
      let kept : s'.last ≡ n = ground (arith, within, h) in
      let lower : leb_ℤ (pos 0) m ≡ true = ground (arith, within) in
      let upper : leb_ℤ m max_unsigned_64 ≡ true = ground (arith, within) in
      (
        kept,
        same,
        ap (leb_ℤ (pos 0)) (sym same) ∙ lower,
        ap (λ x. leb_ℤ x max_unsigned_64) (sym same) ∙ upper,
      )
]

next_nonce-keeps :
    (s s' : MonotonicNonce) (candidate n : ℤ)
    → next_nonce s candidate ≡ ok (s', n)
    → (s'.last ≡ n)
      × (ltb_ℤ s.last n ≡ true)
      × (leb_ℤ (pos 0) n ≡ true)
      × (leb_ℤ n max_unsigned_64 ≡ true)
unfolding next_nonce
next_nonce-keeps s s' candidate n h =
    let (kept, same, lower, upper) = issue-keeps _ n s' h in
    (kept, ap (ltb_ℤ s.last) (sym same) ∙ above_last s.last candidate, lower, upper)

abbrev after : Result (MonotonicNonce × ℤ) → List ℤ → List ℤ
after call rest = elim call [ ok (s', nonce) ↦ nonce ∷ take_nonces s' rest | err e ↦ [] ]

-- From any state and at any readings of the clock, even ones that go back, the nonces that are
-- returned strictly increase, above the last one before, and fit in 64 bits.
pub take_nonces-IsAscending :
    (s : MonotonicNonce) (readings : List ℤ) → IsAscending s.last (take_nonces s readings)
unfolding take_nonces
take_nonces-IsAscending s [] = tt
take_nonces-IsAscending s (candidate ∷ rest) = elim (Result-cases (next_nonce s candidate)) [
  | inr (e, raised) ↦ subst (λ r. IsAscending s.last (after r rest)) (sym raised) tt
  | inl ((s', n), taken) ↦
      let (kept, above, lower, upper) = next_nonce-keeps s s' candidate n taken in
      let more =
        subst (λ l. IsAscending l (take_nonces s' rest)) kept (take_nonces-IsAscending s' rest) in
      subst (λ r. IsAscending s.last (after r rest)) (sym taken) (above, lower, upper, more)
]
