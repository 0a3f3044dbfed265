-- ===== src/Data/Query.antt =====
-- data/db.go: PageQuery and FileListQuery, and the queries that they are turned into. An int and an
-- int64 are their 64 bits: a number from 2 ^ 63 on stands for a negative one.
use page_spy_api.Base.{ℕ, suc, ◌+◌, ◌*◌, ◌%◌, String, Option, none, some, List, [], ◌∷◌, ◌++◌}
use page_spy_api.Base.Number.{decimal}
use page_spy_api.Base.Text.{concat}
use page_spy_api.Data.{Label, where_number, joins, preload, order, Query}

-- PageQuery and FileListQuery
pub record FileListQuery : Type 0 where
  pub page_size : ℕ
  pub page_number : ℕ
  pub from_time : Option ℕ
  pub to_time : Option ℕ
  pub wanted : List Label

-- GetOffset
unfoldable pub get_offset : FileListQuery → ℕ
get_offset q = ((q.page_number + 18446744073709551615) * q.page_size) % 18446744073709551616

abbrev numbered : String → ℕ → String
numbered s i = concat s (decimal i)

-- The two Joins of the i-th tag: the table that links rows with tags, its column, the names of
-- the joined tables, and the table of the rows.
abbrev tag_joins : String → String → String → String → ℕ → Label → Query
tag_joins links column link rows i tag =
    let l = numbered link i in
    let t = numbered "tag" i in
    joins
      (concat "join " (
        concat links (
          concat " as " (
            concat l (
              concat " on "
                (concat l (concat "." (concat column (concat " = " (concat rows ".id"))))))))))
      []
    ∷ joins
        (concat "join tags as " (
          concat t (
            concat " on " (
              concat t (
                concat ".id = " (
                  concat l (
                    concat ".tag_id and "
                      (concat t (concat ".key = ? and " (concat t ".value like ?"))))))))))
        (tag.key ∷ concat "%" (concat tag.value "%") ∷ [])
    ∷ []

-- The loop over the tags, from the i-th on
unfoldable pub tags_from : String → String → String → String → ℕ → List Label → Query
tags_from links column link rows i [] = []
tags_from links column link rows i (tag ∷ tags) =
    tag_joins links column link rows i tag ++ tags_from links column link rows (suc i) tags

abbrev time_clause : String → Option ℕ → Query
time_clause condition none = []
time_clause condition (some t) = where_number condition t ∷ []

-- getLogDB, for the seconds that GetFrom and GetTo turn into times
unfoldable pub get_log_db : FileListQuery → Query
unfolding tags_from
get_log_db q =
    tags_from "log_tags" "log_data_id" "log_tag" "log_data" 0 q.wanted
    ++ time_clause "log_data.created_at > ?" q.from_time
    ++ time_clause "log_data.created_at < ?" q.to_time
    ++ preload "Tags" ∷ order "log_data.created_at desc" ∷ []

-- getLogGroupDB
unfoldable pub get_log_group_db : FileListQuery → Query
unfolding tags_from
get_log_group_db q =
    tags_from "log_group_tags" "log_group_id" "log_group_tag" "log_groups" 0 q.wanted
    ++ time_clause "log_groups.created_at > ?" q.from_time
    ++ time_clause "log_groups.created_at < ?" q.to_time
    ++ preload "Tags" ∷ preload "Logs" ∷ order "log_groups.created_at desc" ∷ []
