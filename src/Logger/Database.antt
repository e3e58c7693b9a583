-- ===== src/Logger/Database.antt =====
-- src/logger/util/SQLAccess.h and the constructor of src/logger/content-writer/DbContentWriter.h. SQLite
-- is a parameter.
use asabru_commons.Base.{
  Bool, true, false, Option, none, some, List, [], ◌∷◌, Bytes, codes, if◌then◌else◌, Outcome, ok,
  err, undefined_behaviour, ◌>>=◌,
}
use asabru_commons.Strings.Memory.{c_part}

-- `sqlite3_open`, which may fail and still give a handle, `sqlite3_exec`, and the rows that the steps of
-- a prepared statement give, with `none` for null values. Handles are opaque.
pub record Sqlite (H W : Type 0) : Type 0 where
  pub sqlite_open : Bytes → W → (Bool × Option H) × W
  pub sqlite_exec : H → Bytes → W → Bool × W
  pub sqlite_rows : H → Bytes → W → Option (List (List (Option Bytes))) × W

pub record SqlAccess (H : Type 0) : Type 0 where
  pub database_name : Bytes
  pub database : Option H

-- `columnValue ? columnValue : ""` for each column.
unfoldable pub result_row : List (Option Bytes) → List Bytes
result_row [] = []
result_row (none ∷ columns) = [] ∷ result_row columns
result_row (some column ∷ columns) = column ∷ result_row columns

unfoldable pub result_rows : List (List (Option Bytes)) → List (List Bytes)
result_rows [] = []
result_rows (row ∷ rows) = result_row row ∷ result_rows rows

abbrev pub rows_or_none : Option (List (List (Option Bytes))) → List (List Bytes)
rows_or_none none = []
rows_or_none (some rows) = result_rows rows

module _ {H W : Type 0} (sqlite : Sqlite H W) where
  open sqlite use {sqlite_open, sqlite_exec, sqlite_rows}

  -- A failure to open is only printed.
  unfoldable pub sql_access : Bytes → W → SqlAccess H × W
  sql_access name w =
      let ((opened, handle), w') = sqlite_open (c_part name) w in
      (record { database_name = name; database = handle }, w')

  -- `Open`.
  unfoldable pub is_open : SqlAccess H → Bool
  is_open a = elim a.database [ none ↦ false | some h ↦ true ]

  -- On a null handle SQLite fails without a message, and the null pointer is printed.
  unfoldable pub execute_query : SqlAccess H → Bytes → W → Outcome (Bool × W)
  execute_query a query w = elim a.database [
    | none ↦ err undefined_behaviour
    | some h ↦ ok (sqlite_exec h (c_part query) w)
  ]

  unfoldable pub execute_select : SqlAccess H → Bytes → W → List (List Bytes) × W
  execute_select a query w = elim a.database [
    | none ↦ ([], w)
    | some h ↦ let (rows, w') = sqlite_rows h (c_part query) w in (rows_or_none rows, w')
  ]

  -- The database writer makes its table.
  unfoldable pub new_db_content_writer : W → Outcome (SqlAccess H × W)
  unfolding sql_access is_open execute_query
  new_db_content_writer w =
      let (access, w1) = sql_access (codes "./Logstorage.db") w in
      let made =
        execute_query access (codes "CREATE TABLE IF NOT EXISTS logs (logcontent TEXT);") w1 in
      if is_open access then (made >>= λ r. ok (access, r.1)) else ok (access, w1)
