-- ===== src/Core.antt =====
-- serve/route/core.go: storing a log and giving it back, over the store of files and the database
-- that CoreApi holds.
pub mod Listing
pub mod Stored
pub mod Tests
use page_spy_api.Base.{ℕ, ◌+◌, String, Option, none, some, List, [], ◌∷◌, ◌++◌, map}
use page_spy_api.Base.Text.{concat}
use page_spy_api.Failure.{GoError, Outcome, ok, err, panic, text}
use page_spy_api.World.Action.{Action, Done, ◌>>=◌, ◌>>◌, pure, lift, halt, fail}
use page_spy_api.Files.{create_file_id}
use page_spy_api.Storage.{Bytes, Tag, LogFile, LogGroupFile, StorageApi}
use page_spy_api.Data.{Label, LogData, LogGroup, status_saved}
use page_spy_api.Data.Api.{DataApi}

-- CoreApi, over a state S; the digest of crypto/md5, in hexadecimal, is a parameter.
pub record CoreApi (S : Type 0) : Type 0 where
  pub storage : StorageApi S
  pub data_of : DataApi S
  pub self_machine_id : String
  pub md5 : Bytes → String

abbrev label : Tag → Label
label t = record { key = t.key; value = t.value }

-- The row that CreateFile and CreateLogGroupFile make of a file
abbrev pub log_data : ℕ → LogFile → LogData
log_data now file = record {
  id = 0;
  created_at = now;
  status = status_saved;
  size = file.size;
  file_id = file.file_id;
  tags = map label file.tags;
  name = file.name;
}

module _ {S : Type 0} (c : CoreApi S) where
  abbrev pub with_id : LogFile → LogFile
  with_id file = record file { file_id = create_file_id c.self_machine_id (c.md5 file.update_file) }

  unfoldable pub create_file : ℕ → LogFile → Action S LogFile
  unfolding ◌>>=◌
  create_file now given = do
    let file = with_id given
    c.storage.save_log file
    c.data_of.create_log (log_data now file)
    pure file

  -- CreateLogGroupFile behind FindLogGroup
  abbrev pub put_in_group : ℕ → LogGroupFile → LogFile → Option LogGroup → Action S LogGroupFile
  put_in_group now given file none = do
    c.data_of.create_log_group (record {
      group_row = 0;
      group_created_at = now;
      group_id = given.group_id;
      group_tags = map label file.tags;
      group_size = file.size;
      logs = log_data now file ∷ [];
      group_name = file.name;
    })
    pure (record given { log_file = file })
  put_in_group now given file (some group) = do
    c.data_of.update_log_group (record group {
      group_size = group.group_size + file.size;
      logs = group.logs ++ log_data now file ∷ [];
    })
    pure (record given { log_file = file })

  unfoldable pub create_log_group_file : ℕ → LogGroupFile → Action S LogGroupFile
  unfolding ◌>>=◌
  create_log_group_file now given = do
    let file = with_id given.log_file
    c.storage.save_log file
    group ← c.data_of.find_log_group given.group_id
    put_in_group now given file group

  -- ListFilesInGroup: the logs of no group are those of a nil pointer.
  abbrev pub logs_of : Option LogGroup → Action S (List LogData)
  logs_of none = halt
  logs_of (some group) = pure group.logs

  unfoldable pub list_files_in_group : String → Action S (List LogData)
  unfolding ◌>>=◌
  list_files_in_group id = do group ← c.data_of.find_log_group id; logs_of group

  -- GetFile behind FindLogByFileId
  abbrev pub file_of_row : String → Option LogData → Action S LogFile
  file_of_row id none = fail (text (concat "file " (concat id " not found")))
  file_of_row id (some l) = do file ← c.storage.get_log id; pure (record file { name = l.name })

  unfoldable pub get_file : String → Action S LogFile
  unfolding ◌>>=◌
  get_file id = do l ← c.data_of.find_log_by_file_id id; file_of_row id l

  -- DeleteFile
  unfoldable pub delete_file : String → Action S Done
  unfolding ◌>>=◌
  delete_file id = do c.storage.remove_log id; c.data_of.delete_log_by_file_id id

  -- The loop of DeleteLogGroup
  unfoldable pub delete_logs : List LogData → Action S Done
  unfolding delete_file ◌>>=◌
  delete_logs [] = pure tt
  delete_logs (l ∷ ls) = do delete_file l.file_id; delete_logs ls

  -- DeleteLogGroup behind FindLogGroup
  abbrev pub delete_found : String → Option LogGroup → Action S Done
  delete_found id none = pure tt
  delete_found id (some group) = do
    delete_logs group.logs
    c.data_of.delete_log_group_by_group_id id

  unfoldable pub delete_log_group : String → Action S Done
  unfolding ◌>>=◌
  delete_log_group id = do group ← c.data_of.find_log_group id; delete_found id group
