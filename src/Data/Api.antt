-- ===== src/Data/Api.antt =====
-- data/api.go: DataApi, and Data as one.
use page_spy_api.Base.{ℕ, String, Option, List}
use page_spy_api.World.Action.{Action, Done}
use page_spy_api.Pages.{Page}
use page_spy_api.Data.{LogData, LogGroup, log_key, group_key, LogGroupResult, Gorm}
use page_spy_api.Data.Query.{FileListQuery}
use page_spy_api.Data.Rows

pub record DataApi (S : Type 0) : Type 0 where
  pub create_log_group : LogGroup → Action S Done
  pub update_log_group : LogGroup → Action S Done
  pub find_log_group : String → Action S (Option LogGroup)
  pub find_log_groups : FileListQuery → Action S (Page group_key)
  pub delete_log_group_by_group_id : String → Action S Done
  pub count_logs_group : String → Action S (List LogGroupResult)
  pub create_log : LogData → Action S Done
  pub find_logs : FileListQuery → Action S (Page log_key)
  pub update_log_status : String → String → Action S Done
  pub delete_log_by_file_id : String → Action S Done
  pub find_log_by_file_id : String → Action S (Option LogData)
  pub find_timeout_logs : ℕ → ℕ → Action S (List LogData)
  pub find_oldest_logs : ℕ → Action S (List LogData)
  pub count_logs_size : Action S ℕ

unfoldable pub data_api : {S : Type 0} → Gorm S → DataApi S
data_api g = record {
  create_log_group = Rows.create_log_group g;
  update_log_group = Rows.update_log_group g;
  find_log_group = Rows.find_log_group g;
  find_log_groups = Rows.find_log_groups g;
  delete_log_group_by_group_id = Rows.delete_log_group_by_group_id g;
  count_logs_group = Rows.count_logs_group g;
  create_log = Rows.create_log g;
  find_logs = Rows.find_logs g;
  update_log_status = Rows.update_log_status g;
  delete_log_by_file_id = Rows.delete_log_by_file_id g;
  find_log_by_file_id = Rows.find_log_by_file_id g;
  find_timeout_logs = Rows.find_timeout_logs g;
  find_oldest_logs = Rows.find_oldest_logs g;
  count_logs_size = Rows.count_logs_size g;
}
