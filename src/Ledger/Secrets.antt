-- ===== src/Ledger/Secrets.antt =====
-- The test for secrets, against the list of all keys and texts of a value.
use kraken_knight.Base.{
  ℕ, suc, String, ◌≡◌, refl, ◌↔◌, Bool, true, false, Option, none, some, List, [], ◌∷◌, ◌++◌, arith,
  any, Result, ok, ◌>>◌, raise_if, raise_if-eq-ok, bind-cases, Strings,
}
use kraken_knight.Ledger.Json.{
  Json, null, boolean, number, text, array, object, other, Items, nil, item, Fields, end, member,
  is_secret_key, is_secret_value, assert_safe_details, assert_safe_items, assert_safe_fields,
}

-- every key and every text in a value, at any depth
unfoldable mutual
  pub keys_in : Json → List (Option String)
  keys_in (object fields) = keys_in_fields fields
  keys_in (array items) = keys_in_items items
  keys_in (text t) = []
  keys_in null = []
  keys_in (boolean b) = []
  keys_in (number n) = []
  keys_in other = []

  pub keys_in_items : Items → List (Option String)
  keys_in_items nil = []
  keys_in_items (item v rest) = keys_in v ++ keys_in_items rest

  pub keys_in_fields : Fields → List (Option String)
  keys_in_fields end = []
  keys_in_fields (member key v rest) = key ∷ keys_in v ++ keys_in_fields rest

unfoldable mutual
  pub texts_in : Json → List String
  texts_in (object fields) = texts_in_fields fields
  texts_in (array items) = texts_in_items items
  texts_in (text t) = t ∷ []
  texts_in null = []
  texts_in (boolean b) = []
  texts_in (number n) = []
  texts_in other = []

  pub texts_in_items : Items → List String
  texts_in_items nil = []
  texts_in_items (item v rest) = texts_in v ++ texts_in_items rest

  pub texts_in_fields : Fields → List String
  texts_in_fields end = []
  texts_in_fields (member key v rest) = texts_in v ++ texts_in_fields rest

any_both {ℓ} :
    {A : Type ℓ} (p : A → Bool) (xs ys : List A)
    → any p xs ≡ false
    → any p ys ≡ false
    → any p (xs ++ ys) ≡ false
any_both p [] ys f g = g
any_both p (x ∷ xs) ys f g =
    let rest : any p xs ≡ false = ground (arith, f) in ground (arith, f, any_both p xs ys rest g)

any_either {ℓ} :
    {A : Type ℓ} (p : A → Bool) (xs ys : List A)
    → any p (xs ++ ys) ≡ false
    → (any p xs ≡ false) × (any p ys ≡ false)
any_either p [] ys f = (refl, f)
any_either p (x ∷ xs) ys f =
    let rest : any p (xs ++ ys) ≡ false = ground (arith, f) in
    let (g, h) = any_either p xs ys rest in (ground (arith, f, g), h)

module _ (strings : Strings) where
  -- a key that is not a text, or one that a secret could stand under
  abbrev pub is_refused_key : Option String → Bool
  is_refused_key none = true
  is_refused_key (some key) = is_secret_key strings key

  -- No key of a mapping and no text, at any depth, looks like a secret.
  abbrev pub IsClean : Json → Type 0
  IsClean v =
      (any is_refused_key (keys_in v) ≡ false)
      × (any (is_secret_value strings) (texts_in v) ≡ false)

  mutual
    unfolding assert_safe_details keys_in texts_in

    safe-IsClean :
        (v : Json) (path : String) → assert_safe_details strings v path ≡ ok tt → IsClean v
    safe-IsClean (object fields) path h = safe_fields-IsClean fields path h
    safe-IsClean (array items) path h = safe_items-IsClean 0 items path h
    safe-IsClean (text t) path h = (refl, ground (arith, h))
    safe-IsClean null path h = (refl, refl)
    safe-IsClean (boolean b) path h = (refl, refl)
    safe-IsClean (number n) path h = (refl, refl)
    safe-IsClean other path h = (refl, refl)

    safe_items-IsClean :
        (index : ℕ) (items : Items) (path : String)
        → assert_safe_items strings index items path ≡ ok tt
        → IsClean (array items)
    safe_items-IsClean index nil path h = (refl, refl)
    safe_items-IsClean index (item v rest) path h =
        let (done, first, more) = bind-cases (assert_safe_details strings v _) _ tt h in
        let (k, t) = safe-IsClean v _ first in
        let (ks, ts) = safe_items-IsClean (suc index) rest path more in
        (
          any_both is_refused_key (keys_in v) _ k ks,
          any_both (is_secret_value strings) (texts_in v) _ t ts,
        )

    safe_fields-IsClean :
        (fields : Fields) (path : String)
        → assert_safe_fields strings fields path ≡ ok tt
        → IsClean (object fields)
    safe_fields-IsClean end path h = (refl, refl)
    safe_fields-IsClean (member none v rest) path h = cc
    safe_fields-IsClean (member (some key) v rest) path h =
        let (done, named, after) = bind-cases (raise_if (is_secret_key strings key) _) _ tt h in
        let (again, first, more) = bind-cases (assert_safe_details strings v _) _ tt after in
        let (k, t) = safe-IsClean v _ first in
        let (ks, ts) = safe_fields-IsClean rest path more in
        let plain = raise_if-eq-ok (is_secret_key strings key) _ named in
        (
          ground (arith, plain, any_both is_refused_key (keys_in v) _ k ks),
          any_both (is_secret_value strings) (texts_in v) _ t ts,
        )

  both : (p : Result (Unit {0})) (q : Result (Unit {0})) → p ≡ ok tt → q ≡ ok tt → (p >> q) ≡ ok tt
  both p q h k = ground (arith, h, k)

  -- a value and the rest of its sequence or mapping are both clean
  IsClean-split :
      (v : Json) (ks : List (Option String)) (ts : List String)
      → (any is_refused_key (keys_in v ++ ks) ≡ false)
        × (any (is_secret_value strings) (texts_in v ++ ts) ≡ false)
      → IsClean v × ((any is_refused_key ks ≡ false) × (any (is_secret_value strings) ts ≡ false))
  IsClean-split v ks ts (k, t) =
      let (k1, k2) = any_either is_refused_key (keys_in v) ks k in
      let (t1, t2) = any_either (is_secret_value strings) (texts_in v) ts t in ((k1, t1), (k2, t2))

  mutual
    unfolding assert_safe_details keys_in texts_in

    IsClean-safe :
        (v : Json) (path : String) → IsClean v → assert_safe_details strings v path ≡ ok tt
    IsClean-safe (object fields) path h = IsClean-safe_fields fields path h
    IsClean-safe (array items) path h = IsClean-safe_items 0 items path h
    IsClean-safe (text t) path h =
        let plain : is_secret_value strings t ≡ false = ground (arith, h) in ground (arith, plain)
    IsClean-safe null path h = refl
    IsClean-safe (boolean b) path h = refl
    IsClean-safe (number n) path h = refl
    IsClean-safe other path h = refl

    IsClean-safe_items :
        (index : ℕ) (items : Items) (path : String)
        → IsClean (array items)
        → assert_safe_items strings index items path ≡ ok tt
    IsClean-safe_items index nil path h = refl
    IsClean-safe_items index (item v rest) path h =
        let (c, r) = IsClean-split v (keys_in_items rest) (texts_in_items rest) h in
        both _ _ (IsClean-safe v _ c) (IsClean-safe_items (suc index) rest path r)

    IsClean-safe_fields :
        (fields : Fields) (path : String)
        → IsClean (object fields)
        → assert_safe_fields strings fields path ≡ ok tt
    IsClean-safe_fields end path h = refl
    IsClean-safe_fields (member none v rest) path h = cc (h.0)
    IsClean-safe_fields (member (some key) v rest) path h =
        let k = h.0 in
        let plain : is_secret_key strings key ≡ false = ground (arith, k) in
        let keys : any is_refused_key (keys_in v ++ keys_in_fields rest) ≡ false =
          ground (arith, k, plain) in
        let (c, r) = IsClean-split v (keys_in_fields rest) (texts_in_fields rest) (keys, h.1) in
        both _ _ (ground (arith, plain))
          (both _ _ (IsClean-safe v _ c) (IsClean-safe_fields rest path r))

  -- The test for secrets passes exactly the values in which, at any depth, every key of a mapping
  -- is a text that contains no secret name and no text that is a value contains a secret fragment.
  pub assert_safe_details_iff :
      (v : Json) (path : String) → (assert_safe_details strings v path ≡ ok tt) ↔ IsClean v
  assert_safe_details_iff v path = (safe-IsClean v path, IsClean-safe v path)
