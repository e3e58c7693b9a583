-- ===== src/Logger/OverSqlite.antt =====
-- The database logger on its access to SQLite: src/logger/content-writer/DbContentWriter.h over
-- src/logger/util/SQLAccess.h.
use asabru_commons.Base.{
  ◌≡◌, refl, ap, sym, ◌∙◌, false, some, List, [], ◌∷◌, ◌++◌, map, append_assoc, append-nil, Bytes,
  codes, str_eq, ok,
}
use asabru_commons.Base.Int.{pos}
use asabru_commons.Strings.Memory.{c_part}
use asabru_commons.Logger.Writer.{
  System, db_content_writer, write_to_media, db_write_to_media, insert_query,
}
use asabru_commons.Logger.Strategy.{db_log_strategy, create_logger, new_db_log_strategy}
use asabru_commons.Logger.Written.{items_of, write_all}
use asabru_commons.Logger.Worker.{State, waiting, Reach}
use asabru_commons.Logger.Drained.{started, waiting_has_written}
use asabru_commons.Logger.Database
use asabru_commons.Logger.Database.{Sqlite, SqlAccess}

module _ {H W : Type 0} where
  -- SQLite, with a trace of the texts that `sqlite3_exec` was called with.
  abbrev pub traced : Sqlite H W → Sqlite H (W × List Bytes)
  traced sqlite = record {
    sqlite_open =
        λ name v. ((sqlite.sqlite_open name v.0).0, ((sqlite.sqlite_open name v.0).1, v.1));
    sqlite_exec = λ h query v. (
      (sqlite.sqlite_exec h query v.0).0,
      ((sqlite.sqlite_exec h query v.0).1, v.1 ++ query ∷ []),
    );
    sqlite_rows = λ h query v.
        ((sqlite.sqlite_rows h query v.0).0, ((sqlite.sqlite_rows h query v.0).1, v.1));
  }

  -- The system that the database writer uses: `access` stays the same. The other media are not
  -- written to.
  abbrev pub over_sqlite : Sqlite H W → SqlAccess H → System W
  over_sqlite sqlite access = record {
    console = λ text w. w;
    append_file = λ name text w. (false, w);
    is_open = Database.is_open sqlite access;
    execute_query = λ query w. elim (Database.execute_query sqlite access query w) [
      | ok r ↦ r
      | _ ↦ (false, w)
    ];
    send = λ text w. (pos 0, w);
    reconnect = λ w. ok w;
  }

-- The text of the statement for an entry, as SQLite gets it.
abbrev pub statement : Bytes → Bytes
statement item = c_part (insert_query item)

module _ {H W : Type 0} (sqlite : Sqlite H W) where
  -- `WriteToMedia` where the database has a handle.
  write-execute_query :
      (access : SqlAccess H) (h : H) (item : Bytes) (v : W × List Bytes)
      → access.database ≡ some h
      → write_to_media (over_sqlite (traced sqlite) access) db_content_writer item v
        ≡ ok ((traced sqlite).sqlite_exec h (statement item) v)
  unfolding write_to_media db_write_to_media Database.is_open Database.execute_query
  write-execute_query access h item v e = rw e refl

  write_all-passed :
      (access : SqlAccess H) (h : H) (items : List Bytes) (v : W × List Bytes) {v' : W × List Bytes}
      → access.database ≡ some h
      → write_all (over_sqlite (traced sqlite) access) db_content_writer items v ≡ ok v'
      → v'.1 ≡ v.1 ++ map statement items
  write_all-passed access h [] v {v'} e run =
      let same : v ≡ v' = cc in ap (λ x. x.1) (sym same) ∙ sym (append-nil v.1)
  write_all-passed access h (item ∷ items) v {v'} e run =
      write_all-passed access h items ((traced sqlite).sqlite_exec h (statement item) v).1 e
        (rw (write-execute_query access h item v e) at run)
      ∙ append_assoc v.1 (statement item ∷ []) (map statement items)

  -- Whenever the thread of a database logger whose SQLite gave a handle waits, and the date stayed the
  -- same, `sqlite3_exec` was called once for each entry that was logged, in their order and with no
  -- other call between them, with the insert statement of the entry up to its first null byte.
  pub waiting_passed :
      (today : Bytes) (access : SqlAccess H) (h : H) (w : W) {s : State (W × List Bytes)}
      → access.database ≡ some h
      → Reach
          (over_sqlite (traced sqlite) access)
          today
          (started (over_sqlite (traced sqlite) access) today (codes "DB") (w, []))
          s
      → s.logger.log_thread ≡ waiting
      → (items : List Bytes) × (items_of db_log_strategy s.logged ≡ ok items)
        × (s.world.1 ≡ map statement items)
  unfolding create_logger new_db_log_strategy str_eq
  waiting_passed today access h w e r idle =
      let (items, read, wrote) =
        waiting_has_written (over_sqlite (traced sqlite) access) today (codes "DB") (w, []) r
          idle in
      (items, read, write_all-passed access h items (w, []) e wrote)
