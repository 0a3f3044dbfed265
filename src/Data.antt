-- ===== src/Data.antt =====
-- data/: the rows of the database, the queries that its library is asked, and DataApi. The library
-- is a parameter: a table answers queries, and a query is the list of the calls that build it.
pub mod File
pub mod Restored
pub mod Bucket
pub mod Query
pub mod Rows
pub mod Api
pub mod Memory
pub mod Paging
pub mod Saved
pub mod Tests
use page_spy_api.Base.{ℕ, ◌/◌, String, Option, List}
use page_spy_api.Base.Number.{decimal}
use page_spy_api.Base.Text.{concat}
use page_spy_api.Failure.{GoError, Outcome}

-- Status
abbrev pub status_error : String
status_error = "Error"

abbrev pub status_created : String
status_created = "Created"

abbrev pub status_saved : String
status_saved = "Saved"

abbrev pub status_unknown : String
status_unknown = "Unknown"

-- Tag, of which the library fills in the rest
pub record Label : Type 0 where
  pub key : String
  pub value : String

-- LogData, with what is read of its Model. Times are milliseconds.
pub record LogData : Type 0 where
  pub id : ℕ
  pub created_at : ℕ
  pub status : String
  pub size : ℕ
  pub file_id : String
  pub tags : List Label
  pub name : String

-- LogGroup
pub record LogGroup : Type 0 where
  pub group_row : ℕ
  pub group_created_at : ℕ
  pub group_id : String
  pub group_tags : List Label
  pub group_size : ℕ
  pub logs : List LogData
  pub group_name : String

-- Model.GetUniqKey
abbrev uniq_of : ℕ → ℕ → String
uniq_of id created_at = concat (decimal id) (concat "_" (decimal (created_at / 1000)))

abbrev pub log_key : LogData → String
log_key l = uniq_of l.id l.created_at

abbrev pub group_key : LogGroup → String
group_key g = uniq_of g.group_row g.group_created_at

-- A call of the library that narrows or orders a query, with its condition and the values in it.
pub data Clause : Type 0 where
  where_text : String → String → Clause
  where_texts : String → List String → Clause
  where_number : String → ℕ → Clause
  joins : String → List String → Clause
  preload : String → Clause
  order : String → Clause
  offset : ℕ → Clause
  limit : ℕ → Clause

abbrev pub Query : Type 0
Query = List Clause

-- The answer to First; gorm.ErrRecordNotFound is an answer of its own.
pub data First (R : Type 0) : Type 0 where
  row : R → First R
  not_found : First R
  failed : GoError → First R

-- What the library does with a table of rows R, in the database state S.
pub record Table (S R : Type 0) : Type 0 where
  pub create : R → S → Option GoError × S
  pub first : Query → S → First R
  pub find : Query → S → Outcome (List R)
  pub count : Query → S → Outcome ℕ
  pub delete_where : Query → S → Option GoError × S
  pub delete_row : Option R → S → Option GoError × S
  pub update_where : Query → String → String → S → Option GoError × S
  pub sum : Query → String → S → Outcome ℕ

-- LogGroupResult
pub record LogGroupResult : Type 0 where
  pub date : String
  pub tag : String
  pub total : ℕ

-- gorm.DB: the two tables, the update of a group's size and logs, and the count of logs by month and
-- by the value of a tag.
pub record Gorm (S : Type 0) : Type 0 where
  pub log_table : Table S LogData
  pub group_table : Table S LogGroup
  pub update_group : LogGroup → ℕ → List LogData → S → Option GoError × S
  pub count_by_tag : String → S → Outcome (List LogGroupResult)
