-- ===== src/Measurements/Schema.antt =====
-- Values, rows and tables of data/measurements/build.py, and what their declarations ask of a row.
use multiplayer_fabric_manua.Common.{ℕ, ◌+◌, Bool, true, false, not, ◌&&◌, ◌||◌, List, [], ◌∷◌, map}
use multiplayer_fabric_manua.Common.Tests.{◌==◌, ltb, within, if◌then◌else◌}
use multiplayer_fabric_manua.Common.Lists.{all, any}
use multiplayer_fabric_manua.Common.Text.{Text, codes, text_eq}
use multiplayer_fabric_manua.PosixPath.{is_empty}

-- A value in a tuple. A float is a decimal literal: its digits, and how many of them are behind the
-- point. No number in the tables is negative.
pub data Value : Type 0 where
  null : Value
  text : Text → Value
  int : ℕ → Value
  real : ℕ → ℕ → Value

abbrev pub Row : Type 0
Row = List Value

pub data ColumnType : Type 0 where
  varchar integer bigint double : ColumnType

-- `CREATE TABLE`: the columns with their types, and the names of the columns of the primary key.
pub record Schema : Type 0 where
  pub name : Text
  pub columns : List (Text × ColumnType)
  pub key : List Text

pub record Table : Type 0 where
  pub schema : Schema
  pub rows : List Row

abbrev pub table_name : Table → Text
table_name t = t.schema.name

unfoldable pub value_eq : Value → Value → Bool
value_eq null null = true
value_eq (text s) (text t) = text_eq s t
value_eq (int a) (int b) = a == b
value_eq (real a p) (real b q) = a == b && p == q
value_eq _ _ = false

unfoldable pub values_eq : List Value → List Value → Bool
unfolding value_eq
values_eq [] [] = true
values_eq (v ∷ vs) (w ∷ ws) = value_eq v w && values_eq vs ws
values_eq _ _ = false

-- A character of a text that a column can hold: no surrogate, and not the one of number 0.
abbrev pub is_scalar : ℕ → Bool
is_scalar c = within 1 0xd7ff c || within 0xe000 0x10ffff c

-- A value can stand in a column: an INTEGER has 32 bits and a BIGINT 64, with the sign. The floats
-- have two digits behind the point, as the script writes them, and at most fifteen in all, of which
-- a DOUBLE keeps every one.
unfoldable pub fits : ColumnType → Value → Bool
fits _ null = true
fits varchar (text s) = all is_scalar s
fits integer (int n) = ltb n 0x80000000
fits bigint (int n) = ltb n 0x8000000000000000
fits double (real a p) = ltb a 1000000000000000 && p == 2
fits _ _ = false

unfoldable pub fits_row : List (Text × ColumnType) → Row → Bool
unfolding fits
fits_row [] [] = true
fits_row ((c, t) ∷ cs) (v ∷ vs) = fits t v && fits_row cs vs
fits_row _ _ = false

-- The value of a row in a column of its table. The script asks for columns that are there.
unfoldable pub field : List (Text × ColumnType) → Text → Row → Value
field [] c vs = null
field (_ ∷ _) c [] = null
field ((c', t) ∷ cs) c (v ∷ vs) = let rest = field cs c vs in if text_eq c' c then v else rest

unfoldable pub key_of : Schema → Row → List Value
unfolding field
key_of s r = map (λ c. field s.columns c r) s.key

unfoldable pub run_id : Schema → Row → Value
unfolding field
run_id s r = field s.columns (codes "run_id") r

-- Every row has as many values as there are columns, each of the type of its column.
unfoldable pub is_typed : Schema → List Row → Bool
unfolding fits_row
is_typed s rows = all (fits_row s.columns) rows

unfoldable pub has_null : List Value → Bool
unfolding value_eq
has_null vs = any (value_eq null) vs

-- The keys of the rows: no part of one is null, and none stands twice.
unfoldable pub keys_hold : Schema → List Row → Bool
unfolding key_of has_null values_eq
keys_hold s [] = true
keys_hold s (r ∷ rows) =
    not (has_null (key_of s r))
    && (not (any (λ r'. values_eq (key_of s r) (key_of s r')) rows) && keys_hold s rows)

-- The constraint of the primary key, if the table has one.
unfoldable pub has_keys : Schema → List Row → Bool
unfolding keys_hold
has_keys s rows = if is_empty s.key then true else keys_hold s rows

-- The truth values of SQL.
pub data Truth : Type 0 where
  yes no unknown : Truth

abbrev pub truth : Bool → Truth
truth true = yes
truth false = no

-- `v = w`: not known if one of them is null.
unfoldable pub sql_eq : Value → Value → Truth
unfolding value_eq
sql_eq v w = if value_eq null v || value_eq null w then unknown else truth (value_eq v w)

abbrev pub sql_or : Truth → Truth → Truth
sql_or yes b = yes
sql_or no b = b
sql_or unknown yes = yes
sql_or unknown no = unknown
sql_or unknown unknown = unknown

abbrev pub sql_not : Truth → Truth
sql_not yes = no
sql_not no = yes
sql_not unknown = unknown

-- `v IN (…)`
unfoldable pub sql_in : List Value → Value → Truth
unfolding sql_eq
sql_in [] v = no
sql_in (w ∷ ws) v = sql_or (sql_eq v w) (sql_in ws v)

abbrev pub is_yes : Truth → Bool
is_yes yes = true
is_yes no = false
is_yes unknown = false

-- `WHERE run_id NOT IN (SELECT run_id FROM run)` keeps the row, where `ids` are the values that the
-- run table has and `v` is the row's.
unfoldable pub is_orphan : List Value → Value → Bool
unfolding sql_in
is_orphan ids v = is_yes (sql_not (sql_in ids v))

unfoldable pub orphan_count : List Value → List Value → ℕ
unfolding is_orphan
orphan_count ids [] = 0
orphan_count ids (v ∷ vs) =
    let rest = orphan_count ids vs in if is_orphan ids v then 1 + rest else rest

-- The values of a table's column `run_id`, which each table of the script has.
abbrev pub run_ids : Table → List Value
run_ids t = map (run_id t.schema) t.rows
