-- ===== src/Logger/LogFile.antt =====
-- The file of a file logger.
use asabru_commons.Base.{
  ◌≡◌, refl, ap, sym, ◌∙◌, subst, Bool, true, false, List, [], ◌∷◌, ◌++◌, Bytes, codes, str_eq,
  append_assoc, append-nil, if◌then◌else◌, ok,
}
use asabru_commons.Logger.Writer.{System, file_content_writer, write_to_media, file_write_to_media}
use asabru_commons.Logger.Strategy.{
  file_log_strategy, create_logger, init_file_content_writer, log_file_name,
}
use asabru_commons.Logger.Written.{items_of, write_all}
use asabru_commons.Logger.Worker.{State, waiting, Reach}
use asabru_commons.Logger.Drained.{started, waiting_has_written}

-- The lines of entries.
abbrev pub lines_of : List Bytes → Bytes
lines_of [] = []
lines_of (item ∷ items) = (item ++ codes "\r\n") ++ lines_of items

-- What a file holds after text was appended to the file or to another.
abbrev pub appended : Bool → Bytes → Bytes → Bytes
appended same old text = if same then old ++ text else old

appended-nil : (same : Bool) (old : Bytes) → old ≡ appended same old []
appended-nil true old = sym (append-nil old)
appended-nil false old = refl

appended-appended :
    (same : Bool) (old a b : Bytes)
    → appended same (appended same old a) b ≡ appended same old (a ++ b)
appended-appended true old a b = append_assoc old a b
appended-appended false old a b = refl

-- The content of files, and what appending to one does.
module _ {W : Type 0} (system : System W) (content : Bytes → W → Bytes)
    (appends : (file_name text name : Bytes) (w : W)
      → content name (system.append_file file_name text w).1
        ≡ appended (str_eq name file_name) (content name w) text) where
  write_all-file :
      (file_name name : Bytes) (items : List Bytes) (w : W) {w' : W}
      → write_all system (file_content_writer file_name) items w ≡ ok w'
      → content name w' ≡ appended (str_eq name file_name) (content name w) (lines_of items)
  unfolding write_to_media file_write_to_media
  write_all-file file_name name [] w {w'} e =
      let same : w ≡ w' = cc in
      subst (λ v. content name v ≡ appended (str_eq name file_name) (content name w) []) same
        (appended-nil (str_eq name file_name) (content name w))
  write_all-file file_name name (item ∷ items) w {w'} e =
      write_all-file file_name name items (system.append_file file_name (item ++ codes "\r\n") w).1
        e
      ∙ ap (λ old. appended (str_eq name file_name) old (lines_of items))
          (appends file_name (item ++ codes "\r\n") name w)
      ∙ appended-appended (str_eq name file_name) (content name w) (item ++ codes "\r\n")
          (lines_of items)

  -- Whenever the thread of a file logger waits and the date stayed the same, the file of the day holds what it
  -- held before and then the entries of all calls of `Log`, a line for each, in their order, and the
  -- other files hold what they held, if files open and a write appends to its file only.
  pub waiting_file :
      (today name : Bytes) (w : W) {s : State W}
      → Reach system today (started system today (codes "FILE") w) s
      → s.logger.log_thread ≡ waiting
      → (items : List Bytes) × (items_of file_log_strategy s.logged ≡ ok items)
        × (content name s.world
            ≡ appended (str_eq name (log_file_name today)) (content name w) (lines_of items))
  unfolding create_logger init_file_content_writer str_eq
  waiting_file today name w r idle =
      let (items, read, wrote) = waiting_has_written system today (codes "FILE") w r idle in
      (items, read, write_all-file (log_file_name today) name items w wrote)
