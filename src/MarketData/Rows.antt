-- ===== src/MarketData/Rows.antt =====
-- What the rows of a response become: well-formed candles in order, only the last one mutable.
use kraken_knight.Base.{
  String, ◌≡◌, refl, sym, ap, ◌∙◌, subst, inl, inr, Bool, true, false, Option, some, List, [], ◌∷◌,
  ◌++◌, arith, Option-cases, ℤ, pos, value_error, Result, ok, err, Result-cases,
}
use kraken_knight.Domain.{
  Candle, Instant, make_candle, zoned, Number, finite, to_decimal, require_utc,
}
use kraken_knight.Domain.Candles.{IsWellFormed, make_candle-IsWellFormed}
use kraken_knight.MarketData.Sequence.{IsIncreasing, validate_daily_sequence-IsIncreasing}
use kraken_knight.MarketData.{
  KrakenOhlcBatch, Cell, Row, not_array, cells, parse_row, parse_rows, parse_ohlc_rows,
  from_timestamp, as_market_error, validate_daily_sequence,
}

as_market_error-eq-ok :
    (r : Result Candle) (m : String) {c : Candle} → as_market_error r m ≡ ok c → r ≡ ok c
as_market_error-eq-ok (ok c) m h = h
as_market_error-eq-ok (err (value_error x)) m h = cc
as_market_error-eq-ok (err e) m h = cc

-- What a row says of its candle: the cells that are read, one for one.
pub record IsRead (row : Row) (candle : Candle) : Type 0 where
  pub stamp : Cell
  pub opening : Cell
  pub high : Cell
  pub low : Cell
  pub close : Cell
  pub vwap : Cell
  pub volume : Cell
  pub count : Cell
  pub more : List Cell
  pub has_cells : row ≡ cells (stamp ∷ opening ∷ high ∷ low ∷ close ∷ vwap ∷ volume ∷ count ∷ more)
  pub seconds : ℤ
  pub stamped : stamp.as_int ≡ some seconds
  pub opened : from_timestamp seconds ≡ ok candle.open_time
  pub prices :
      (opening.as_decimal ≡ finite candle.opening)
      × (high.as_decimal ≡ finite candle.high)
      × (low.as_decimal ≡ finite candle.low)
      × (close.as_decimal ≡ finite candle.close)
      × (volume.as_decimal ≡ finite candle.volume)

-- A row that parses is read cell for cell, is well formed and has the mark that it was given.
pub record IsParsed (complete : Bool) (row : Row) (c : Candle) : Type 0 where
  pub read : IsRead row c
  pub well_formed : IsWellFormed c
  pub marked : c.complete ≡ complete

-- The rows and the candles pair off in order; every row but the last is complete.
abbrev pub AreParsed : List Row → List Candle → Candle → Type 0
AreParsed [] cs tail = ⊥
AreParsed (row ∷ []) [] tail = IsParsed false row tail
AreParsed (row ∷ []) (c ∷ cs) tail = ⊥
AreParsed (row ∷ next ∷ rows) [] tail = ⊥
AreParsed (row ∷ next ∷ rows) (c ∷ cs) tail = IsParsed true row c × AreParsed (next ∷ rows) cs tail

make_candle-fields :
    (t : Instant) (o h l c v : Number) (complete : Bool) (candle : Candle)
    → make_candle (zoned (pos 0) t) o h l c v complete ≡ ok candle
    → (candle.open_time ≡ t)
      × (candle.complete ≡ complete)
      × (o ≡ finite candle.opening)
      × (h ≡ finite candle.high)
      × (l ≡ finite candle.low)
      × (c ≡ finite candle.close)
      × (v ≡ finite candle.volume)
unfolding make_candle to_decimal require_utc
make_candle-fields t (finite o) (finite h) (finite l) (finite c) (finite v) complete candle e =
    ground arith
make_candle-fields t o h l c v complete candle e = ground arith

parse_row-IsParsed :
    (row : Row) (complete : Bool) (candle : Candle)
    → parse_row row complete ≡ ok candle
    → IsParsed complete row candle
unfolding parse_row
parse_row-IsParsed not_array complete candle e = cc
parse_row-IsParsed (cells (s ∷ o ∷ h ∷ l ∷ c ∷ w ∷ v ∷ n ∷ more)) complete candle e =
    elim (Option-cases s.as_int) [
      | inl absent ↦ ground arith
      | inr (z, present) ↦ elim (Result-cases (from_timestamp z)) [
        | inr (x, raised) ↦ ground arith
        | inl (t, at) ↦
            let made =
              make_candle (zoned (pos 0) t) o.as_decimal h.as_decimal l.as_decimal c.as_decimal
                v.as_decimal complete in
            let converted : as_market_error made "OHLC row violates candle invariants" ≡ ok candle =
              ground arith in
            let constructed = as_market_error-eq-ok made _ converted in
            let (opened, marked, po, ph, pl, pc, pv) =
              make_candle-fields t _ _ _ _ _ complete candle constructed in
            record {
              read = record {
                stamp = s;
                opening = o;
                high = h;
                low = l;
                close = c;
                vwap = w;
                volume = v;
                count = n;
                more = more;
                has_cells = refl;
                seconds = z;
                stamped = present;
                opened = at ∙ ap (λ x. ok x) (sym opened);
                prices = (po, ph, pl, pc, pv);
              };
              well_formed = make_candle-IsWellFormed _ _ _ _ _ _ _ constructed;
              marked = marked;
            }
      ]
    ]
parse_row-IsParsed (cells few) complete candle e = ground arith

parse_rows-IsParsed :
    (rows : List Row) (completed : List Candle) (tail : Candle)
    → parse_rows rows ≡ ok (completed, tail)
    → AreParsed rows completed tail
unfolding parse_rows
parse_rows-IsParsed [] completed tail e = cc
parse_rows-IsParsed (row ∷ []) completed tail e = elim (Result-cases (parse_row row false)) [
  | inr (x, raised) ↦ absurd (ground arith)
  | inl (c, parsed) ↦
      let none' : [] ≡ completed = ground arith in
      let same : c ≡ tail = ground arith in
      subst (λ cs. AreParsed (row ∷ []) cs tail) none'
        (subst (IsParsed false row) same (parse_row-IsParsed row false c parsed))
]
parse_rows-IsParsed (row ∷ next ∷ rows) completed tail e =
    elim (Result-cases (parse_row row true)) [
      | inr (x, raised) ↦ absurd (ground arith)
      | inl (c, parsed) ↦ elim (Result-cases (parse_rows (next ∷ rows))) [
        | inr (x, raised) ↦ absurd (ground arith)
        | inl ((cs, last), more) ↦
            let head : c ∷ cs ≡ completed = ground arith in
            let same : last ≡ tail = ground arith in
            subst (λ ds. AreParsed (row ∷ next ∷ rows) ds tail) head
              (subst (AreParsed (row ∷ next ∷ rows) (c ∷ cs)) same (
                parse_row-IsParsed row true c parsed,
                parse_rows-IsParsed (next ∷ rows) cs last more,
              ))
      ]
    ]

-- A response that parses gives one candle for each row, in the order of the rows. The candle of a
-- row opens at the row's timestamp, has its opening, highest, lowest and closing price and its
-- volume, and is well formed. The candle of the last row is set apart and marked incomplete, all
-- others are marked complete, and together they open in strictly increasing order.
pub parse_ohlc_rows-IsParsed :
    (rows : List Row) (key : String) (observed_at : Instant) (pair : Option String)
    (batch : KrakenOhlcBatch)
    → parse_ohlc_rows rows key observed_at pair ≡ ok batch
    → AreParsed rows batch.completed batch.mutable_tail
      × IsIncreasing (batch.completed ++ batch.mutable_tail ∷ [])
unfolding parse_ohlc_rows
parse_ohlc_rows-IsParsed rows key observed_at pair batch e = elim (Result-cases (parse_rows rows)) [
  | inr (x, raised) ↦ absurd (ground arith)
  | inl ((cs, tail), parsed) ↦
      let all = parse_rows-IsParsed rows cs tail parsed in
      let v : validate_daily_sequence (cs ++ tail ∷ []) false ≡ ok tt = ground arith in
      let increasing = (validate_daily_sequence-IsIncreasing (cs ++ tail ∷ [])).0 v in
      let same : batch.completed ≡ cs = ground arith in
      let same' : batch.mutable_tail ≡ tail = ground arith in rw (same, same') (all, increasing)
]
