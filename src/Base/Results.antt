-- ===== src/Base/Results.antt =====
-- A call that may raise. An exception is its class and its message.
use mathlib.Core.Path.{◌≡◌, refl, subst}
use kraken_knight.Base.Tests.{if◌then◌else◌}
use mathlib.Core.Logic.{◌⊎◌, inl, inr}
use mathlib.Core.Bool.{Bool, true, false}
use Prim.Native.String.{String}

-- `zero_division` is what `decimal` raises for a zero divisor, under the default traps.
pub data Error : Type 0 where
  type_error value_error runtime_error market_data_error daily_job_error config_error :
      String → Error
  read_error ledger_error ledger_conflict reconciliation_job_error : String → Error
  zero_division : Error

-- What a call leaves behind: the exception that it raised, or what it returned.
pub data Result {ℓ} (R : Type ℓ) : Type ℓ where
  err : Error → Result R
  ok : R → Result R

-- the next statement, unless this one raised
infixl 5 ◌>>=◌
abbrev pub ◌>>=◌ {ℓ ℓ'} : {R : Type ℓ} {S : Type ℓ'} → Result R → (R → Result S) → Result S
err raised >>= next = err raised
ok returned >>= next = next returned

-- the same for a statement that returns nothing
infixl 5 ◌>>◌
abbrev pub ◌>>◌ {ℓ} : {S : Type ℓ} → Result (Unit {0}) → Result S → Result S
checked >> next = checked >>= λ done. next

-- `if c: raise e`
abbrev pub raise_if : Bool → Error → Result (Unit {0})
raise_if false raised = ok tt
raise_if true raised = err raised

pub Result-cases {ℓ} :
    {R : Type ℓ} (call : Result R) → ((a : R) × (call ≡ ok a)) ⊎ ((e : Error) × (call ≡ err e))
Result-cases (err raised) = inr (raised, refl)
Result-cases (ok returned) = inl (returned, refl)

pub raise_if-eq-ok : (c : Bool) (e : Error) → raise_if c e ≡ ok tt → c ≡ false
raise_if-eq-ok false e h = refl
raise_if-eq-ok true e h = cc

-- Whatever the call returns has the property.
pub record Ensures {ℓ κ} {A : Type ℓ} (P : A → Type κ) (m : Result A) : Type (ℓ ⊔ κ) where
  pub at : (a : A) → m ≡ ok a → P a

module _ {ℓ κ} {A : Type ℓ} {P : A → Type κ} where
  pub Ensures-ok : (a : A) → P a → Ensures P (ok a)
  Ensures-ok a h = record { at = λ b e. let same : a ≡ b = cc in subst P same h }

  pub Ensures-bind {μ} :
      {B : Type μ} (m : Result B) (f : B → Result A)
      → ((b : B) → m ≡ ok b → Ensures P (f b))
      → Ensures P (m >>= f)
  Ensures-bind (ok b) f h = h b refl
  Ensures-bind (err e) f h = record { at = λ a raised. cc }

  -- the rest of the block may use that the test failed
  pub Ensures-raise_if :
      (c : Bool) (e : Error) (k : Result A)
      → (c ≡ false → Ensures P k)
      → Ensures P (raise_if c e >> k)
  Ensures-raise_if false e k h = h refl
  Ensures-raise_if true e k h = record { at = λ a raised. cc }

  pub Ensures-if :
      (c : Bool) (m n : Result A)
      → (c ≡ true → Ensures P m)
      → (c ≡ false → Ensures P n)
      → Ensures P (if c then m else n)
  Ensures-if true m n f g = f refl
  Ensures-if false m n f g = g refl

pub Ensures-map {ℓ κ μ} :
    {A : Type ℓ} {P : A → Type κ} {Q : A → Type μ} (m : Result A)
    → ((a : A) → P a → Q a)
    → Ensures P m
    → Ensures Q m
Ensures-map m f h = record { at = λ a e. f a (h.at a e) }

-- A sequence of two calls that returned: so did both.
pub bind-cases {ℓ ℓ'} :
    {R : Type ℓ} {S : Type ℓ'} (m : Result R) (f : R → Result S) (b : S)
    → (m >>= f) ≡ ok b
    → (a : R) × (m ≡ ok a) × (f a ≡ ok b)
bind-cases (ok a) f b h = (a, refl, h)
bind-cases (err e) f b h = cc
