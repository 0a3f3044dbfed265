-- ===== src/Cleaning.antt =====
-- serve/route/core.go: DeleteFile, CleanFileBySize and CleanFileByTime. The stores of files and of
-- rows are S3 or disk and SQL through a library: what they answer is a parameter, and the state
-- records what they were asked to delete and did.
pub mod Amount
pub mod Group
pub mod Tests
use page_spy_api.Base.{
  ℕ, ◌-◌, ◌*◌, eqb, String, Bool, true, false, Option, none, some, List, [], ◌∷◌, ◌++◌, ltb,
  if◌then◌else◌,
}
use page_spy_api.Failure.{GoError, Outcome, ok, err, panic}
use page_spy_api.World.Action.{Action, Done, ◌>>=◌, ◌>>◌, pure, lift, fail, attempt}

-- What is read of a data.LogData
pub record Log : Type 0 where
  pub file_id : String
  pub size : ℕ

-- The answers of StorageApi and DataApi during one cleaning.
pub record Stores : Type 0 where
  pub remove_log : String → Option GoError
  pub delete_log : String → Option GoError
  pub delete_log_group_by_group_id : String → Option GoError
  pub count_logs_size : Outcome ℕ
  pub find_oldest_logs : ℕ → Outcome (List Log)
  pub find_timeout_logs : ℕ → ℕ → Outcome (List Log)

-- The files that are gone from the storage, those whose rows are gone too, and the groups whose rows
-- are gone.
pub record Gone : Type 0 where
  pub files : List String
  pub rows : List String
  pub groups : List String

-- A call that ends with this error, or has this effect.
abbrev pub answer : Option GoError → (Gone → Gone) → Gone → Outcome Done × Gone
answer none f s = (ok tt, f s)
answer (some e) f s = (err e, s)

-- DeleteFile
unfoldable pub delete_file : Stores → String → Action Gone Done
unfolding ◌>>=◌
delete_file d id =
    answer (d.remove_log id) (λ s. record s { files = s.files ++ id ∷ [] })
    >> answer (d.delete_log id) (λ s. record s { rows = s.rows ++ id ∷ [] })

-- What is left to delete after a deletion that succeeded, or failed; the code's number may fall
-- below 0, where the loop stops as it does at 0.
abbrev pub left : ℕ → Log → Option GoError → ℕ
left n l none = n - l.size
left n l (some e) = n

abbrev pub is_zero : ℕ → Bool
is_zero n = eqb n 0

-- The loop of CleanFileBySize: an error is logged.
unfoldable pub clean_until : Stores → ℕ → List Log → Action Gone Done
unfolding delete_file
clean_until d n [] = pure tt
clean_until d n (l ∷ ls) = elim (is_zero n) [
  | true ↦ pure tt
  | false ↦ do failed ← attempt (delete_file d l.file_id); clean_until d (left n l failed) ls
]

-- CleanFileBySize
unfoldable pub clean_file_by_size : Stores → ℕ → Action Gone Done
unfolding clean_until
clean_file_by_size d max = do
  size ← lift d.count_logs_size
  if ltb size max
      then pure tt
      else (do logs ← lift (d.find_oldest_logs 1000); clean_until d (size - max) logs)

clean_all : Stores → List Log → Action Gone Done
unfolding delete_file
clean_all d [] = pure tt
clean_all d (l ∷ ls) = do failed ← attempt (delete_file d l.file_id); clean_all d ls

-- CleanFileByTime
unfoldable pub clean_file_by_time : Stores → ℕ → ℕ → Action Gone Done
unfolding clean_all
clean_file_by_time d now max_life_of_hour = do
  logs ← lift (d.find_timeout_logs (now - max_life_of_hour * 3600000) 1000)
  clean_all d logs

-- CleanFile
unfoldable pub clean_file : Stores → ℕ → ℕ → ℕ → Action Gone Done
unfolding clean_file_by_size clean_file_by_time
clean_file d now max max_life_of_hour = do
  e ← attempt (clean_file_by_size d max)
  e' ← attempt (clean_file_by_time d now max_life_of_hour)
  pure tt

-- The loop of DeleteLogGroup: the first error ends it.
delete_each : Stores → List Log → Action Gone Done
unfolding delete_file
delete_each d [] = pure tt
delete_each d (l ∷ ls) = do delete_file d l.file_id; delete_each d ls

-- DeleteLogGroupByGroupId
unfoldable pub delete_row : Stores → String → Action Gone Done
delete_row d id =
    answer (d.delete_log_group_by_group_id id) (λ s. record s { groups = s.groups ++ id ∷ [] })

-- DeleteLogGroup, with what FindLogGroup found
unfoldable pub delete_log_group : Stores → String → Outcome (Option (List Log)) → Action Gone Done
unfolding delete_each delete_row
delete_log_group d id found = do
  group ← lift found
  elim group [ none ↦ pure tt | some logs ↦ delete_each d logs >> delete_row d id ]
