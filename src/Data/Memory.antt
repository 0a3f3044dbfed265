-- ===== src/Data/Memory.antt =====
-- A library for the tests: tables that are lists in memory.
use page_spy_api.Base.{
  String, Bool, true, not, ◌&&◌, none, List, [], ◌∷◌, length, take, drop, keep_if, ◌==◌, eq_iff,
  eq_refl, arith, if◌then◌else◌, ◌≡◌, ◌≢◌, refl,
}
use page_spy_api.Failure.{GoError, ok}
use page_spy_api.Data.{
  LogData, LogGroup, status_saved, where_text, offset, limit, Query, First, row, not_found, failed,
  Table, Gorm,
}
use page_spy_api.Data.Rows.{saved_file}
use page_spy_api.Data.Saved.{Working}

-- The conditions that the tests ask for.
abbrev condition : String → String → LogData → Bool
condition c v l =
    if c == "file_id = ?"
    then l.file_id == v
    else (if c == "status = ?" then l.status == v else true)

abbrev meets_all : Query → LogData → Bool
meets_all [] l = true
meets_all (where_text c v ∷ q) l = condition c v l && meets_all q l
meets_all (_ ∷ q) l = meets_all q l

abbrev search : Query → List LogData → First LogData
search q [] = not_found
search q (l ∷ ls) = let rest = search q ls in if meets_all q l then row l else rest

abbrev select : Query → List LogData → List LogData
select [] ls = ls
select (where_text c v ∷ q) ls = select q (keep_if (condition c v) ls)
select (offset n ∷ q) ls = select q (drop n ls)
select (limit n ∷ q) ls = select q (take n ls)
select (_ ∷ q) ls = select q ls

abbrev pub log_rows : Table (List LogData) LogData
log_rows = record {
  create = λ l ls. (none, record l { id = length ls } ∷ ls);
  first = search;
  find = λ q ls. ok (select q ls);
  count = λ q ls. ok (length (select q ls));
  delete_where = λ q ls. (none, keep_if (λ l. not (meets_all q l)) ls);
  delete_row = λ l ls. (none, ls);
  update_where = λ q column v ls. (none, ls);
  sum = λ q column ls. ok 0;
}

abbrev group_rows : Table (List LogData) LogGroup
group_rows = record {
  create = λ l ls. (none, ls);
  first = λ q ls. not_found;
  find = λ q ls. ok [];
  count = λ q ls. ok 0;
  delete_where = λ q ls. (none, ls);
  delete_row = λ l ls. (none, ls);
  update_where = λ q column v ls. (none, ls);
  sum = λ q column ls. ok 0;
}

abbrev pub memory : Gorm (List LogData)
memory = record {
  log_table = log_rows;
  group_table = group_rows;
  update_group = λ l size logs ls. (none, ls);
  count_by_tag = λ key ls. ok [];
}

pub memory-Working : Working log_rows
memory-Working = record {
  answers = never_fails;
  meets = own_id;
  creates = λ l s saved e. (length s, _, refl, found l s saved);
}
  where
    never_fails :
        (id : String) (s : List LogData) (e : GoError) → search (saved_file id) s ≢ failed e
    never_fails id [] e h = cc
    never_fails id (l ∷ ls) e h = ground (arith, never_fails id ls e)

    own_id :
        (id : String) (s : List LogData) (l : LogData)
        → search (saved_file id) s ≡ row l
        → l.file_id ≡ id
    own_id id [] l h = absurd cc
    own_id id (x ∷ s) l h = grind (arith, own_id id s l, eq_iff x.file_id id)

    found :
        (l : LogData) (s : List LogData)
        → l.status ≡ status_saved
        → search (saved_file l.file_id) (record l { id = length s } ∷ s)
          ≡ row (record l { id = length s })
    found l s saved = rw (saved, eq_refl l.file_id) refl
