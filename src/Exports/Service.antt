-- ===== src/Exports/Service.antt =====
-- The texts of the two exports, as lists of character codes, and which rows they hold. A date, a number
-- or a decimal is the text that the runtime gives of it.
use carbonledger.Base.{
  ℕ, leb, ◌==◌, Bool, true, Option, none, some, List, [], ◌∷◌, ◌++◌, map, if◌then◌else◌,
}
use carbonledger.Base.Digits.{texts_eq}

abbrev pub Text : Type 0
Text = List ℕ

abbrev pub quote : ℕ
quote = b'"'

abbrev pub comma : ℕ
comma = b','

abbrev pub line_end : ℕ
line_end = 10

-- A column of a record that the client answers.
pub data Value : Type 0 where
  absent : Value
  number date text : Text → Value
  list : List Text → Value

-- A property of a record, or the columns of a record that is joined to it.
pub data Entry : Type 0 where
  plain : Value → Entry
  nested : List (Text × Value) → Entry

-- `flattened[key] = value`: a key that is there keeps its place.
unfoldable pub assign : Text → Value → List (Text × Value) → List (Text × Value)
assign key v [] = (key, v) ∷ []
assign key v ((k, w) ∷ row) =
    let rest = assign key v row in if texts_eq k key then (k, v) ∷ row else (k, w) ∷ rest

-- `${key}_${nestedKey}` for every column of the joined record.
unfoldable pub assign_nested :
    Text → List (Text × Value) → List (Text × Value) → List (Text × Value)
unfolding assign
assign_nested key [] row = row
assign_nested key ((k, v) ∷ columns) row =
    assign_nested key columns (assign (key ++ b'_' ∷ k) v row)

unfoldable pub flatten : List (Text × Entry) → List (Text × Value) → List (Text × Value)
unfolding assign assign_nested
flatten [] row = row
flatten ((k, plain v) ∷ item) row = flatten item (assign k v row)
flatten ((k, nested columns) ∷ item) row = flatten item (assign_nested k columns row)

unfoldable pub lookup : Text → List (Text × Value) → Value
lookup key [] = absent
lookup key ((k, v) ∷ row) = let rest = lookup key row in if texts_eq k key then v else rest

-- `val.replace(/"/g, '""')`
unfoldable pub escape : Text → Text
escape [] = []
escape (c ∷ s) = if c == quote then quote ∷ quote ∷ escape s else c ∷ escape s

unfoldable pub quoted : Text → Text
unfolding escape
quoted s = quote ∷ (escape s ++ quote ∷ [])

-- `parts.join(separator)`
unfoldable pub join : Text → List Text → Text
join separator [] = []
join separator (s ∷ []) = s
join separator (s ∷ t ∷ parts) = s ++ separator ++ join separator (t ∷ parts)

unfoldable pub cell : Value → Text
unfolding quoted join
cell absent = []
cell (date t) = t
cell (list ts) = quoted (join (b';' ∷ b' ' ∷ []) ts)
cell (text s) = quoted s
cell (number t) = t

abbrev pub keys : List (Text × Value) → List Text
keys row = map (λ column. column.0) row

unfoldable pub csv_row : List Text → List (Text × Value) → Text
unfolding lookup cell join
csv_row headers row = join (comma ∷ []) (map (λ header. cell (lookup header row)) headers)

-- The headers are those of the first row.
unfoldable pub to_csv : List (List (Text × Entry)) → Text
unfolding flatten csv_row join
to_csv [] = []
to_csv (item ∷ items) =
    let headers = keys (flatten item []) in
    join (line_end ∷ [])
      (join (comma ∷ []) headers ∷ map (λ row. csv_row headers (flatten row [])) (item ∷ items))

-- One bound of a date, as the object of a `where` holds it: the one of `endDate` takes the place of the
-- one of `startDate`.
pub data DateBound : Type 0 where
  gte lte : ℕ → DateBound

unfoldable pub date_bound : Option ℕ → Option ℕ → Option DateBound
date_bound start (some end) = some (lte end)
date_bound (some start) none = some (gte start)
date_bound none none = none

abbrev pub meets : Option DateBound → ℕ → Bool
meets none t = true
meets (some (gte start)) t = leb start t
meets (some (lte end)) t = leb t end

-- `exportCsv` of the retirements: the ten columns of a row, joined as they are.
unfoldable pub retirement_row : List Text → Text
unfolding join
retirement_row columns = join (comma ∷ []) columns
