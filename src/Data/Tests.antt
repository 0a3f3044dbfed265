-- ===== src/Data/Tests.antt =====
-- Queries of three logs in memory.
use page_spy_api.Base.{suc, ℕ, ◌<◌, ◌*◌, take, String, none, some, List, [], ◌∷◌, ◌≡◌, refl, arith}
use page_spy_api.Base.Number.{decimal}
use page_spy_api.Failure.{ok}
use page_spy_api.Pages.{Page}
use page_spy_api.Data.{LogData, log_key, status_saved, joins, where_number, preload, order}
use page_spy_api.Data.Query.{FileListQuery, get_log_db}
use page_spy_api.Data.Rows.{find_logs, find_log_by_file_id, create_log}
use page_spy_api.Data.Memory.{memory, memory-Working}
use page_spy_api.Data.Paging.{Pageable, at_page, first_pages, find_logs-pages}
use page_spy_api.Data.Saved.{find_log_by_file_id-create_log}

abbrev pub log_at : ℕ → String → LogData
log_at t id = record {
  id = t;
  created_at = t;
  status = status_saved;
  size = 10;
  file_id = id;
  tags = [];
  name = id;
}

abbrev three_logs : List LogData
three_logs = log_at 3 "a.3" ∷ log_at 2 "a.2" ∷ log_at 1 "a.1" ∷ []

abbrev pages_of_two : FileListQuery
pages_of_two = record {
  page_size = 2;
  page_number = 1;
  from_time = none;
  to_time = some 7;
  wanted = record { key = "os"; value = "android" } ∷ [];
}

-- What the query asks.
asks :
    get_log_db pages_of_two
    ≡ joins "join log_tags as log_tag0 on log_tag0.log_data_id = log_data.id" []
      ∷ joins
          "join tags as tag0 on tag0.id = log_tag0.tag_id and tag0.key = ? and tag0.value like ?"
          ("os" ∷ "%android%" ∷ [])
      ∷ where_number "log_data.created_at < ?" 7
      ∷ preload "Tags"
      ∷ order "log_data.created_at desc"
      ∷ []
unfolding get_log_db decimal
asks = refl

in_memory : Pageable memory.log_table (get_log_db pages_of_two) three_logs three_logs
unfolding get_log_db
in_memory = record { find-query = refl; find-cut = λ o n h. refl; count-query = refl }

find_logs-pages_example :
    (first_pages log_key (λ k. (find_logs memory (at_page pages_of_two k) three_logs).0) 2
      ≡ ok (take (2 * 2) three_logs))
    × ((k : ℕ)
        → k < 2
        → (p : Page log_key) × ((find_logs memory (at_page pages_of_two (suc k)) three_logs).0
            ≡ ok p)
          × (p.total ≡ 3))
find_logs-pages_example =
    find_logs-pages memory pages_of_two three_logs three_logs in_memory (omega arith) 2
      (omega arith)

find_log_by_file_id-create_log_example :
    (r : LogData) × (s' : List LogData) × (create_log memory (log_at 4 "a.4") three_logs
      ≡ (ok tt, s'))
    × (find_log_by_file_id memory "a.4" s' ≡ (ok (some r), s'))
    × (r.file_id ≡ "a.4")
    × (create_log memory (log_at 4 "a.4") s' ≡ (ok tt, s'))
find_log_by_file_id-create_log_example =
    find_log_by_file_id-create_log memory memory-Working (log_at 4 "a.4") three_logs refl
