-- ===== src/Data/Rows.antt =====
-- data/db.go: the operations of Data on the tables of logs and groups.
use page_spy_api.Base.{ℕ, ◌-◌, ◌*◌, String, Option, none, some, List, [], ◌∷◌, ◌++◌, if◌then◌else◌}
use page_spy_api.Base.Int.{at_most_zero}
use page_spy_api.Failure.{GoError, Outcome, ok, err, panic, text}
use page_spy_api.World.Action.{Action, Done, ◌>>=◌}
use page_spy_api.Pages.{Page}
use page_spy_api.Data.{
  status_error, status_created, status_saved, status_unknown, LogData, LogGroup, log_key, group_key,
  Query, where_text, where_texts, where_number, preload, order, offset, limit, First, row,
  not_found, failed, Table, LogGroupResult, Gorm,
}
use page_spy_api.Data.Query.{FileListQuery, get_offset, get_log_db, get_log_group_db}

-- result.Error
abbrev pub result_error : {S : Type 0} → Option GoError × S → Outcome Done × S
result_error (none, s) = (ok tt, s)
result_error (some e, s) = (err e, s)

-- First, where a record that is not found is no error
abbrev pub found_row : {R : Type 0} → First R → Outcome (Option R)
found_row (row r) = ok (some r)
found_row not_found = ok none
found_row (failed e) = err e

module _ {S R : Type 0} (key : R → String) (t : Table S R) where
  -- The page of what was found and the total that was counted
  abbrev pub paged : Outcome (List R) → Outcome ℕ → Outcome (Page key)
  paged (ok rows) (ok n) = ok (record { total = n; rows = rows })
  paged (ok rows) (err e) = err e
  paged (ok rows) panic = panic
  paged (err e) n = err e
  paged panic n = panic

  -- The common body of FindLogs and FindLogGroups, for the query that they build
  unfoldable pub find_page : (FileListQuery → Query) → FileListQuery → S → Outcome (Page key)
  find_page build q s =
      if at_most_zero q.page_size
      then err (text "size should be greater than 0")
      else if at_most_zero q.page_number
      then err (text "page should be greater than 0")
      else paged (t.find (build q ++ offset (get_offset q) ∷ limit q.page_size ∷ []) s)
          (t.count (build q) s)

-- The row of a file that is stored
abbrev pub saved_file : String → Query
saved_file id = where_text "file_id = ?" id ∷ where_text "status = ?" status_saved ∷ []

module _ {S : Type 0} (g : Gorm S) where
  unfoldable pub update_log_group : LogGroup → Action S Done
  update_log_group group s = result_error (g.update_group group group.group_size group.logs s)

  unfoldable pub create_log_group : LogGroup → Action S Done
  create_log_group group s = result_error (g.group_table.create group s)

  unfoldable pub find_log_group : String → Action S (Option LogGroup)
  find_log_group id s =
      (found_row (g.group_table.first (where_text "group_id = ?" id ∷ preload "Logs" ∷ []) s), s)

  unfoldable pub find_log_groups : FileListQuery → Action S (Page group_key)
  unfolding find_page
  find_log_groups q s = (find_page group_key g.group_table get_log_group_db q s, s)

  unfoldable pub delete_log_group_by_group_id : String → Action S Done
  unfolding find_log_group ◌>>=◌
  delete_log_group_by_group_id id = do
    group ← find_log_group id
    λ s. result_error (g.group_table.delete_row group s)

  unfoldable pub find_log_by_file_id : String → Action S (Option LogData)
  find_log_by_file_id id s = (found_row (g.log_table.first (saved_file id) s), s)

  -- CreateLog, when the row was looked for
  abbrev pub create_unless : LogData → Option LogData → Action S Done
  create_unless l (some old) s = (ok tt, s)
  create_unless l none s = result_error (g.log_table.create l s)

  unfoldable pub create_log : LogData → Action S Done
  unfolding find_log_by_file_id ◌>>=◌
  create_log l = do old ← find_log_by_file_id l.file_id; create_unless l old

  unfoldable pub count_logs_group : String → Action S (List LogGroupResult)
  count_logs_group key s = (g.count_by_tag key s, s)

  unfoldable pub find_logs : FileListQuery → Action S (Page log_key)
  unfolding find_page
  find_logs q s = (find_page log_key g.log_table get_log_db q s, s)

  unfoldable pub update_log_status : String → String → Action S Done
  update_log_status id status s =
      result_error (g.log_table.update_where (where_text "file_id = ?" id ∷ []) "status" status s)

  unfoldable pub delete_log_by_file_id : String → Action S Done
  delete_log_by_file_id id s =
      result_error (g.log_table.delete_where (where_text "file_id = ?" id ∷ []) s)

  unfoldable pub find_timeout_logs : ℕ → ℕ → Action S (List LogData)
  find_timeout_logs before size s = (
    g.log_table.find
        (where_number "created_at < ?" before ∷ limit size ∷ order "created_at desc" ∷ []) s,
    s,
  )

  unfoldable pub find_oldest_logs : ℕ → Action S (List LogData)
  find_oldest_logs size s = (g.log_table.find (limit size ∷ order "created_at asc" ∷ []) s, s)

  unfoldable pub find_should_delete_logs : ℕ → ℕ → Action S (List LogData)
  find_should_delete_logs now size s = (
    g.log_table.find
        (limit size
          ∷ where_number "created_at < ?" (now - 1 * 3600000)
          ∷ where_texts "status in ?" (status_error ∷ status_created ∷ status_unknown ∷ [])
          ∷ [])
        s,
    s,
  )

  unfoldable pub count_logs_size : Action S ℕ
  count_logs_size s =
      (g.log_table.sum (where_text "status = ?" status_saved ∷ []) "sum(size) as total" s, s)
