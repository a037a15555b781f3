-- ===== src/Collection/Chains.antt =====
-- A replay that comes to a balance went through all entries in an order in which each follows.
use kraken_knight.Base.{
  ℕ, zero, suc, ◌≤◌, ◌≡◌, refl, sym, subst, ◌≢◌, ◌⊎◌, inl, inr, true, List, [], ◌∷◌, ◌++◌, arith,
  Bool-cases, length, keep_if, Reordered, nothing, kept, exchanged, composed, Reordered-refl,
  Reordered-append, length-Reordered, Reordered-split,
}
use kraken_knight.Decimals.{Decimal, eq, ◌⊕◌, ◌⊖◌}
use kraken_knight.Collection.Records.{LedgerRecord}
use kraken_knight.Collection.Replay.{
  Replayed, balanced, undetermined, exhausted, follows, without_next, next_entries, replay_instant,
  at_instant, not_at, replay,
}

-- Each entry's balance equals the one before it plus its amount minus its fee, in decimal arithmetic;
-- the last is `last`.
abbrev pub IsChain : Decimal → List LedgerRecord → Decimal → Type 0
IsChain current [] last = current ≡ last
IsChain current (e ∷ es) last =
    (eq (current ⊕ e.amount ⊖ e.fee) e.balance ≡ true) × IsChain e.balance es last

-- The entries can be put in an order that is such a chain.
pub record IsReplayed (current : Decimal) (entries : List LedgerRecord) (last : Decimal)
    : Type 0 where
  pub ordered : List LedgerRecord
  pub same_entries : Reordered entries ordered
  pub chained : IsChain current ordered last

IsChain-append :
    (current middle last : Decimal) (xs ys : List LedgerRecord)
    → IsChain current xs middle
    → IsChain middle ys last
    → IsChain current (xs ++ ys) last
IsChain-append current middle last [] ys h k = subst (λ c. IsChain c ys last) (sym h) k
IsChain-append current middle last (e ∷ xs) ys h k =
    (h.0, IsChain-append e.balance middle last xs ys h.1 k)

List-cases :
    (l : List LedgerRecord)
    → (l ≡ [])
      ⊎ (((e : LedgerRecord) × (l ≡ e ∷ []))
          ⊎ ((e : LedgerRecord) × (f : LedgerRecord) × (r : List LedgerRecord) × (l ≡ e ∷ f ∷ r)))
List-cases [] = inl refl
List-cases (e ∷ []) = inr (inl (e, refl))
List-cases (e ∷ f ∷ r) = inr (inr (e, f, r, refl))

-- the only entry that follows goes first, the others stay as they are
next_entries-only :
    (current : Decimal) (xs : List LedgerRecord) (s : LedgerRecord)
    → next_entries current xs ≡ s ∷ []
    → Reordered xs (s ∷ without_next current xs) × (follows current s ≡ true)
unfolding next_entries without_next
next_entries-only current [] s h = cc
next_entries-only current (x ∷ xs) s h = elim (Bool-cases (follows current x)) [
  | inl here ↦
      let first : x ∷ keep_if (follows current) xs ≡ s ∷ [] = ground (arith, h, here) in
      let same : x ≡ s = cc in
      rw here (
        subst (λ y. Reordered (x ∷ xs) (y ∷ xs) × (follows current y ≡ true)) same
          (Reordered-refl (x ∷ xs), here))
  | inr there ↦
      let rest : keep_if (follows current) xs ≡ s ∷ [] = ground (arith, h, there) in
      let (moved, follow) = next_entries-only current xs s rest in
      rw there (composed (kept x moved) (exchanged x s (without_next current xs)), follow)
]

replay_instant-IsReplayed :
    (fuel : ℕ) (current last : Decimal) (xs : List LedgerRecord)
    → replay_instant fuel current xs ≡ balanced last
    → IsReplayed current xs last
unfolding replay_instant follows
replay_instant-IsReplayed fuel current last [] h = record {
  ordered = [];
  same_entries = nothing;
  chained = cc;
}
replay_instant-IsReplayed zero current last (e ∷ es) h = cc
replay_instant-IsReplayed (suc fuel) current last (e ∷ es) h =
    elim (List-cases (next_entries current (e ∷ es))) [
      | inl none' ↦ absurd (ground (arith, none', h))
      | inr (inr (f, g, r, several)) ↦ absurd (ground (arith, several, h))
      | inr (inl (s, only)) ↦
          let (moved, follow) = next_entries-only current (e ∷ es) s only in
          let rest : replay_instant fuel s.balance (without_next current (e ∷ es)) ≡ balanced last =
            ground (arith, only, h) in
          let more =
            replay_instant-IsReplayed fuel s.balance last (without_next current (e ∷ es)) rest in
          record {
            ordered = s ∷ more.ordered;
            same_entries = composed moved (kept s more.same_entries);
            chained = (follow, more.chained);
          }
    ]

pub Replayed-cases :
    (r : Replayed) → ((d : Decimal) × (r ≡ balanced d)) ⊎ ((r ≡ undetermined) ⊎ (r ≡ exhausted))
Replayed-cases (balanced d) = inl (d, refl)
Replayed-cases undetermined = inr (inl refl)
Replayed-cases exhausted = inr (inr refl)

pub replay-IsReplayed :
    (fuel : ℕ) (current last : Decimal) (xs : List LedgerRecord)
    → replay fuel current xs ≡ balanced last
    → IsReplayed current xs last
unfolding replay
replay-IsReplayed fuel current last [] h = record {
  ordered = [];
  same_entries = nothing;
  chained = cc;
}
replay-IsReplayed zero current last (e ∷ es) h = cc
replay-IsReplayed (suc fuel) current last (e ∷ es) h =
    let same = keep_if (at_instant e.recorded_at) (e ∷ es) in
    let later = keep_if (not_at e.recorded_at) (e ∷ es) in
    elim (Replayed-cases (replay_instant (length same) current same)) [
      | inr (inl stuck) ↦ absurd (ground (arith, stuck, h))
      | inr (inr empty) ↦ absurd (ground (arith, empty, h))
      | inl (middle, here) ↦
          let rest : replay fuel middle later ≡ balanced last = ground (arith, here, h) in
          let first = replay_instant-IsReplayed (length same) current middle same here in
          let more = replay-IsReplayed fuel middle last later rest in
          record {
            ordered = first.ordered ++ more.ordered;
            same_entries =
                composed
                  (Reordered-split (at_instant e.recorded_at) (not_at e.recorded_at) (e ∷ es)
                    (λ x. refl))
                  (Reordered-append first.same_entries more.same_entries);
            chained =
                IsChain-append current middle last first.ordered more.ordered first.chained
                  more.chained;
          }
    ]

-- the fuel is enough
without_next-length :
    (current : Decimal) (xs : List LedgerRecord) (s : LedgerRecord)
    → next_entries current xs ≡ s ∷ []
    → length xs ≡ suc (length (without_next current xs))
without_next-length current xs s h = length-Reordered (next_entries-only current xs s h).0

pub replay_instant-fuel :
    (fuel : ℕ) (current : Decimal) (xs : List LedgerRecord)
    → length xs ≤ fuel
    → replay_instant fuel current xs ≢ exhausted
unfolding replay_instant
replay_instant-fuel fuel current [] h e = cc
replay_instant-fuel zero current (x ∷ xs) h e = absurd (omega (arith, h))
replay_instant-fuel (suc fuel) current (x ∷ xs) h e =
    elim (List-cases (next_entries current (x ∷ xs))) [
      | inl none' ↦ ground (arith, none', e)
      | inr (inr (f, g, r, several)) ↦ ground (arith, several, e)
      | inr (inl (s, only)) ↦
          let l = without_next-length current (x ∷ xs) s only in
          let shorter : length (without_next current (x ∷ xs)) ≤ fuel = omega (arith, l, h) in
          replay_instant-fuel fuel s.balance (without_next current (x ∷ xs)) shorter
            (ground (arith, only, e))
    ]
