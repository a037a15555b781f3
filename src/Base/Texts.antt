-- ===== src/Base/Texts.antt =====
-- Python's texts: equality, membership of a fragment, and the methods of `str` that go by Unicode's
-- tables, which are a parameter.
use Prim.Native.Nat.{ℕ, Ordering, compare as compare_ℕ}
use Prim.Native.Char.{code}
use Prim.Native.String.{String, ◌++◌ as text_append}
use mathlib.Core.Path.{◌≡◌, refl}
use mathlib.Core.Bool.{Bool, true, false, ◌||◌, ◌&&◌}
use mathlib.Core.Option.{none, some}
use mathlib.Core.List.{List, [], ◌∷◌}
use mathlib.Core.Logic.{◌↔◌}
use text.Mathlib.Text.{◌==◌ as str_eq, find?}
use text.Mathlib.TextEquality.{eq_iff, codes_equal}
use native.Mathlib.Omega.{arith}
use kraken_knight.Base.Tests.{ltb, ◌==◌}

abbrev pub text_eq : String → String → Bool
text_eq s t = str_eq s t

pub text_eq_iff : (s t : String) → (text_eq s t ≡ true) ↔ (s ≡ t)
text_eq_iff s t = eq_iff s t

pub text_eq_refl : (s : String) → text_eq s s ≡ true
text_eq_refl s = (eq_iff s s).1 refl

-- `t in ts`, of a set of texts
abbrev pub one_of : String → List String → Bool
one_of s [] = false
one_of s (t ∷ ts) = text_eq s t || one_of s ts

-- `fragment in s`
abbrev pub has_fragment : String → String → Bool
has_fragment s fragment = elim (find? s fragment) [ none ↦ false | some i ↦ true ]

abbrev pub text_join : String → String → String
text_join s t = text_append s t

-- `any(fragment in s for fragment in fragments)`
abbrev pub has_any : List String → String → Bool
has_any [] s = false
has_any (fragment ∷ fragments) s = has_fragment s fragment || has_any fragments s

-- the code points of a text
abbrev pub codes : String → List ℕ
codes String.[] = []
codes (String.◌∷◌ c s) = code c ∷ codes s

-- Python's `str` methods
pub record Strings : Type 0 where
  pub strip : String → String
  pub lower : String → String
  pub upper : String → String
  -- `replace("-", "_")`
  pub replace_dashes : String → String
  -- `" ".join(value.split())`
  pub collapse : String → String
  -- `str(n)` of a number that is not negative
  pub of_ℕ : ℕ → String

same_code : (m n : ℕ) → m ≡ n → compare_ℕ m n ≡ Ordering.eq
same_code m n e = ground (arith, e)

-- `s < t`, by code points
abbrev pub text_lt : String → String → Bool
text_lt String.[] String.[] = false
text_lt String.[] (String.◌∷◌ d t) = true
text_lt (String.◌∷◌ c s) String.[] = false
text_lt (String.◌∷◌ c s) (String.◌∷◌ d t) =
    ltb (code c) (code d) || (code c == code d && text_lt s t)

pub text_lt_trans : (s t u : String) → text_lt s t ≡ true → text_lt t u ≡ true → text_lt s u ≡ true
text_lt_trans String.[] String.[] u h k = cc
text_lt_trans String.[] (String.◌∷◌ d t) String.[] h k = cc
text_lt_trans String.[] (String.◌∷◌ d t) (String.◌∷◌ e u) h k = refl
text_lt_trans (String.◌∷◌ c s) String.[] u h k = cc
text_lt_trans (String.◌∷◌ c s) (String.◌∷◌ d t) String.[] h k = cc
text_lt_trans (String.◌∷◌ c s) (String.◌∷◌ d t) (String.◌∷◌ e u) h k =
    ground (arith, h, k, text_lt_trans s t u)

pub text_lt_asym : (s t : String) → text_lt s t ≡ true → text_lt t s ≡ false
text_lt_asym String.[] String.[] h = refl
text_lt_asym String.[] (String.◌∷◌ d t) h = refl
text_lt_asym (String.◌∷◌ c s) String.[] h = cc
text_lt_asym (String.◌∷◌ c s) (String.◌∷◌ d t) h = ground (arith, h, text_lt_asym s t)

pub text_lt_irrefl : (s : String) → text_lt s s ≡ false
text_lt_irrefl String.[] = refl
text_lt_irrefl (String.◌∷◌ c s) = ground (arith, text_lt_irrefl s)

-- texts that neither precede one another are the same
pub text_lt-eq : (s t : String) → text_lt s t ≡ false → text_lt t s ≡ false → s ≡ t
text_lt-eq String.[] String.[] h k = refl
text_lt-eq String.[] (String.◌∷◌ d t) h k = cc
text_lt-eq (String.◌∷◌ c s) String.[] h k = cc
text_lt-eq (String.◌∷◌ c s) (String.◌∷◌ d t) h k =
    let here : code c ≡ code d = ground (arith, h, k) in
    let rest : text_lt s t ≡ false = ground (arith, h, here) in
    let rest' : text_lt t s ≡ false = ground (arith, k, here) in
    cc (codes_equal c d (same_code (code c) (code d) here), text_lt-eq s t rest rest')
