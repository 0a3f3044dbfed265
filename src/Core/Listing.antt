-- ===== src/Core/Listing.antt =====
-- serve/route/core.go: GetFileList and GetLogGroupList, over the pages that the instances answered;
-- Desc of data/logs.go. sort.Slice leaves the order of rows of one second open: here they keep
-- theirs, and no theorem depends on it.
use page_spy_api.Base.{ℕ, ◌/◌, ◌≤◌, String, List, [], ◌∷◌, ltb, All, if◌then◌else◌}
use page_spy_api.Failure.{Outcome, ok, err, panic}
use page_spy_api.Data.{LogData, LogGroup, log_key, group_key}
use page_spy_api.Pages.{Page, call_all_client, uniq_data}

-- GetOrderValue of a log, and of a group: the second of its creation
abbrev pub log_order : LogData → ℕ
log_order l = l.created_at / 1000

abbrev pub group_order : LogGroup → ℕ
group_order g = g.group_created_at / 1000

module _ {T : Type 0} (key : T → String) (order : T → ℕ) where
  abbrev place : T → List T → List T
  place x [] = x ∷ []
  place x (y ∷ ys) =
      let behind = place x ys in if ltb (order x) (order y) then y ∷ behind else x ∷ y ∷ ys

  abbrev pub sort_desc : List T → List T
  sort_desc [] = []
  sort_desc (x ∷ xs) = place x (sort_desc xs)

  -- Desc
  unfoldable pub desc : Page key → Page key
  desc p = record p { rows = sort_desc p.rows }

  -- res := &Page{}
  abbrev pub empty_page : Page key
  empty_page = record { total = 0; rows = [] }

  abbrev pub ordered : Outcome (Page key) → Outcome (Page key)
  ordered (ok p) = ok (desc p)
  ordered (err e) = err e
  ordered panic = panic

  abbrev pub uniquely : Outcome (Page key) → Outcome (Page key)
  uniquely (ok p) = ok (uniq_data key p)
  uniquely (err e) = err e
  uniquely panic = panic

  -- No row stands before one of a later second.
  abbrev pub Latest : List T → Type 0
  Latest [] = Unit
  Latest (x ∷ xs) = All (λ y. order y ≤ order x) xs × Latest xs

-- GetFileList
unfoldable pub get_file_list : List (Outcome (Page log_key)) → Outcome (Page log_key)
unfolding desc
get_file_list answers =
    uniquely log_key log_order
      (ordered log_key log_order (call_all_client log_key answers (empty_page log_key log_order)))

-- GetLogGroupList
unfoldable pub get_log_group_list : List (Outcome (Page group_key)) → Outcome (Page group_key)
unfolding desc
get_log_group_list answers =
    ordered group_key group_order
      (call_all_client group_key answers (empty_page group_key group_order))
