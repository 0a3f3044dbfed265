-- ===== src/Storage/FileApi.antt =====
-- storage/file.go: FileApi, the store of files on a local disk.
use page_spy_api.Base.{ℕ, String, Bool, true, false, Option, none, some, [], ◌==◌, if◌then◌else◌}
use page_spy_api.Base.Text.{concat}
use page_spy_api.Failure.{GoError, Outcome, ok, err, panic, text, wrapped, error_text}
use page_spy_api.World.Action.{Action, Done}
use page_spy_api.Storage.{Bytes, LogFile, Opened, StorageApi}
use page_spy_api.Storage.Disk.{
  Disk, Faults, Stat, found, not_exist, failed, os_stat, os_create, os_write, os_open, os_remove,
  not_exist_error,
}

abbrev pub log_path : String → String
log_path id = concat "./log/" id

-- fmt.Errorf("…: %w", err)
abbrev pub wrap : String → GoError → GoError
wrap s e = wrapped (concat s (error_text e)) e

abbrev pub empty_id : String → GoError
empty_id s = text (concat s " log file error: fileId is empty")

-- The end of SaveLog and Save: what Write answered.
abbrev pub written : Option GoError × Disk → Outcome Done × Disk
written (none, d) = (ok tt, d)
written (some e, d) = (err (wrap "create log file error: " e), d)

-- SaveLog behind os.Create
abbrev pub write_created : Faults → String → Bytes → Option GoError × Disk → Outcome Done × Disk
write_created f path b (some e, d) = (err (wrap "create log file error: " e), d)
write_created f path b (none, d) = written (os_write f path b d)

-- SaveLog of an id that is not empty: a file that is there is left as it is.
abbrev pub save_log_at : Faults → String → Bytes → Action Disk Done
save_log_at f path b d = elim (os_stat f path d) [
  | found n ↦ (ok tt, d)
  | not_exist ↦ write_created f path b (os_create f path d)
  | failed e ↦ write_created f path b (os_create f path d)
]

unfoldable pub save_log : Faults → LogFile → Action Disk Done
save_log f log d =
    if log.file_id == ""
    then (err (empty_id "create"), d)
    else save_log_at f (log_path log.file_id) log.update_file d

-- Save behind os.Create: the stream is read, then written.
abbrev pub copy_created :
    Faults → String → Outcome Bytes → Option GoError × Disk → Outcome Done × Disk
copy_created f path stream (some e, d) = (err (wrap "create log file error: " e), d)
copy_created f path (ok b) (none, d) = written (os_write f path b d)
copy_created f path (err e) (none, d) = (err e, d)
copy_created f path panic (none, d) = (panic, d)

unfoldable pub save : Faults → String → Outcome Bytes → Action Disk Done
save f path stream d = elim (os_stat f path d) [
  | found n ↦ (ok tt, d)
  | not_exist ↦ copy_created f path stream (os_create f path d)
  | failed e ↦ copy_created f path stream (os_create f path d)
]

abbrev pub exists_at : Stat → Outcome Bool
exists_at (found n) = ok true
exists_at not_exist = ok false
exists_at (failed e) = err (wrap "get file size error: " e)

unfoldable pub exist : Faults → String → Action Disk Bool
exist f path d =
    if path == ""
    then (err (text "get path error: path is empty"), d)
    else (exists_at (os_stat f path d), d)

unfoldable pub exist_log : Faults → String → Action Disk Bool
unfolding exist
exist_log f id d = if id == "" then (err (empty_id "get"), d) else exist f (log_path id) d

abbrev pub opened : ℕ → Outcome Bytes → Outcome Opened
opened n (ok b) = ok (record { stream = b; stream_size = n })
opened n (err e) = err (wrap "open log file error: " e)
opened n panic = panic

unfoldable pub get : Faults → String → Action Disk Opened
get f path d = elim (os_stat f path d) [
  | found n ↦ (opened n (os_open f path d), d)
  | not_exist ↦ (err (wrap "get file size error: " (not_exist_error path)), d)
  | failed e ↦ (err (wrap "get file size error: " e), d)
]

abbrev pub log_of : String → Outcome Opened → Outcome LogFile
log_of id (ok o) = ok (record {
  name = "";
  file_id = id;
  size = o.stream_size;
  tags = [];
  update_file = [];
  file_stream = some o.stream;
})
log_of id (err e) = err e
log_of id panic = panic

unfoldable pub get_log : Faults → String → Action Disk LogFile
unfolding get
get_log f id d =
    if id == "" then (err (empty_id "get"), d) else (log_of id (get f (log_path id) d).0, d)

-- The end of RemoveLog: what os.Remove answered.
abbrev pub removed : Option GoError × Disk → Outcome Done × Disk
removed (none, d) = (ok tt, d)
removed (some e, d) = (err (wrap "remove log file error: " e), d)

abbrev pub remove_log_at : Faults → String → Action Disk Done
remove_log_at f path d = elim (os_stat f path d) [
  | not_exist ↦ (ok tt, d)
  | found n ↦ removed (os_remove f path d)
  | failed e ↦ removed (os_remove f path d)
]

unfoldable pub remove_log : Faults → String → Action Disk Done
remove_log f id d =
    if id == "" then (err (empty_id "remove"), d) else remove_log_at f (log_path id) d

unfoldable pub file_api : Faults → StorageApi Disk
unfolding save_log get_log exist_log remove_log save exist get
file_api f = record {
  save_log = save_log f;
  get_log = get_log f;
  exist_log = exist_log f;
  remove_log = remove_log f;
  save = save f;
  exist = exist f;
  get = get f;
}
