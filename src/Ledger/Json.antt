-- ===== src/Ledger/Json.antt =====
-- JSON values, their canonical text and digest (provenance.py), and the test for secrets
-- (`_assert_safe_details` of ledger.py).
use kraken_knight.Base.{
  ℕ, suc, String, Bool, false, not, Option, none, some, List, [], ◌∷◌, if◌then◌else◌, type_error,
  value_error, Result, ok, err, ◌>>=◌, ◌>>◌, raise_if, text_eq, text_join, Strings, has_any,
}
use kraken_knight.Domain.{Datetime, require_utc}
use kraken_knight.Decimals.{Decimal, of_ℕ, eq}

-- What Python holds of a JSON value. The key of a dictionary that is not a text is `none`.
mutual
  pub data Json : Type 0 where
    null : Json
    boolean : Bool → Json
    number : Decimal → Json
    text : String → Json
    array : Items → Json
    object : Fields → Json
    -- a value of another type
    other : Json

  pub data Items : Type 0 where
    nil : Items
    item : Json → Items → Items

  pub data Fields : Type 0 where
    end : Fields
    member : Option String → Json → Fields → Fields

-- What the ledger takes from `json`, `hashlib` and `datetime`.
pub record Codec : Type 0 where
  -- `json.dumps` with `_json_default`, sorted keys and no spaces
  pub dumps : Json → Result String
  pub loads : String → Result Json
  -- the hexadecimal digest of a text's UTF-8
  pub sha256 : String → String
  -- `isoformat` of a date, counted in days, and of a UTC instant, with `Z` for its offset
  pub date_text : ℕ → String
  pub instant_text : ℕ → String
  -- `datetime.fromisoformat`
  pub parse_instant : String → Option Datetime
  -- `format(d, "f")`
  pub decimal_text : Decimal → String

-- a field of a dictionary that is written out
abbrev pub entry : String → Json → Fields → Fields
entry key v rest = member (some key) v rest

-- `mapping.get(key)`
unfoldable pub get : String → Fields → Option Json
get key end = none
get key (member none v rest) = get key rest
get key (member (some k) v rest) = if text_eq k key then some v else get key rest

-- `value == s` and `value == b`: a number equals a bool as 0 or 1 does
unfoldable pub is_text : Option Json → String → Bool
is_text (some (text t)) s = text_eq t s
is_text v s = false

unfoldable pub is_boolean : Option Json → Bool → Bool
is_boolean (some (boolean a)) b = if a then b else not b
is_boolean (some (number n)) b = eq n (of_ℕ (if b then 1 else 0))
is_boolean v b = false

-- `canonical_json_bytes(value).decode("utf-8")`
unfoldable pub canonical_json : Codec → Json → Result String
canonical_json codec v = codec.dumps v

unfoldable pub sha256_json : Codec → Json → Result String
unfolding canonical_json
sha256_json codec v = do t ← canonical_json codec v; ok (codec.sha256 t)

-- `_utc_timestamp`, at the clock `now`
unfoldable pub utc_timestamp : Codec → ℕ → Option Datetime → Result String
utc_timestamp codec now none = ok (codec.instant_text now)
utc_timestamp codec now (some t) = do
  instant ← require_utc t (value_error "recorded_at must be timezone-aware UTC")
  ok (codec.instant_text instant)

abbrev pub secret_key_fragments : List String
secret_key_fragments =
    "api_key" ∷ "credential" ∷ "password" ∷ "private_key" ∷ "secret" ∷ "token" ∷ []

abbrev pub secret_value_fragments : List String
secret_value_fragments =
    "-----begin private key-----" ∷ "&api_key=" ∷ "&key=" ∷ "&secret=" ∷ "&token=" ∷ "?api_key="
    ∷ "?key=" ∷ "?secret=" ∷ "?token=" ∷ []

module _ (strings : Strings) where
  unfoldable pub is_secret_key : String → Bool
  is_secret_key key =
      has_any secret_key_fragments (strings.replace_dashes (strings.lower (strings.strip key)))

  unfoldable pub is_secret_value : String → Bool
  is_secret_value t = has_any secret_value_fragments (strings.lower (strings.strip t))

  -- `_assert_safe_details`, on a value, on the items of a sequence and on the fields of a mapping
  unfoldable mutual
    unfolding is_secret_key is_secret_value

    pub assert_safe_details : Json → String → Result (Unit {0})
    assert_safe_details (object fields) path = assert_safe_fields fields path
    assert_safe_details (array items) path = assert_safe_items 0 items path
    assert_safe_details (text t) path =
        raise_if (is_secret_value t)
          (value_error (text_join "secret-bearing values are prohibited in " path))
    assert_safe_details null path = ok tt
    assert_safe_details (boolean b) path = ok tt
    assert_safe_details (number n) path = ok tt
    assert_safe_details other path = ok tt

    pub assert_safe_items : ℕ → Items → String → Result (Unit {0})
    assert_safe_items index nil path = ok tt
    assert_safe_items index (item v rest) path =
        assert_safe_details v (text_join path (text_join "[" (text_join (strings.of_ℕ index) "]")))
        >> assert_safe_items (suc index) rest path

    pub assert_safe_fields : Fields → String → Result (Unit {0})
    assert_safe_fields end path = ok tt
    assert_safe_fields (member none v rest) path =
        err (type_error (text_join path " keys must be strings"))
    assert_safe_fields (member (some key) v rest) path =
        raise_if (is_secret_key key)
          (value_error (text_join "secret-bearing field names are prohibited in " path))
        >> (assert_safe_details v (text_join path (text_join "." key))
            >> assert_safe_fields rest path)
