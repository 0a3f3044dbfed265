-- ===== src/Storage/Partial.antt =====
-- A write that breaks off, and the next attempt to store the same file.
use page_spy_api.Base.{take, [], ℕ, String, false, none, some, ◌==◌, eq_refl, ◌≡◌, refl, ◌∙◌}
use page_spy_api.Base.Dict.{lookup, insert, lookup-insert}
use page_spy_api.Failure.{GoError, ok, err}
use page_spy_api.Storage.{Bytes, LogFile}
use page_spy_api.Storage.Disk.{Disk, Faults, os_stat, os_create, os_write}
use page_spy_api.Storage.FileApi.{log_path, wrap, save_log, save_log_at, write_created}

lookup-inserted : (path : String) (b : Bytes) (d : Disk) → lookup path (insert path b d) ≡ some b
lookup-inserted path b d = lookup-insert path path b d ∙ rw (eq_refl path) refl

-- What a file that is there makes of SaveLog.
saved_already :
    (g : Faults) (log : LogFile) (d : Disk) (b : Bytes)
    → (log.file_id == "") ≡ false
    → g.stat (log_path log.file_id) ≡ none
    → lookup (log_path log.file_id) d ≡ some b
    → save_log g log d ≡ (ok tt, d)
unfolding save_log
saved_already g log d b h s e = rw (h, save_log_at, os_stat, s, e) refl

created_lem :
    (f : Faults) (path : String) (d : Disk)
    → f.create path ≡ none
    → os_create f path d ≡ (none, insert path [] d)
created_lem f path d e = rw (os_create, e) refl

written_lem :
    (f : Faults) (path : String) (b : Bytes) (d : Disk) (n : ℕ) (e : GoError)
    → f.write path ≡ some (n, e)
    → os_write f path b d ≡ (some e, insert path (take n b) d)
written_lem f path b d n e h = rw (os_write, h) refl

module _ (f : Faults) (log : LogFile) (d : Disk) (n : ℕ) (e : GoError)
    (named : (log.file_id == "") ≡ false) (new : lookup (log_path log.file_id) d ≡ none)
    (stat : f.stat (log_path log.file_id) ≡ none) (create : f.create (log_path log.file_id) ≡ none)
    (broken : f.write (log_path log.file_id) ≡ some (n, e)) where
  broken_off : save_log f log d ≡ (
    err (wrap "create log file error: " e),
    insert (log_path log.file_id) (take n log.update_file) (insert (log_path log.file_id) [] d),
  )
  unfolding save_log
  broken_off =
      rw (named, save_log_at, os_stat, stat, new, created_lem f (log_path log.file_id) d create)
        (rw (write_created, written_lem f (log_path log.file_id) log.update_file _ n e broken) refl)

  -- If the write of a new file fails behind some of its bytes, SaveLog returns the error and leaves
  -- these bytes, and SaveLog of any file with this id then returns without an error and leaves
  -- them too.
  pub save_log-broken :
      (g : Faults) (again : LogFile)
      → again.file_id ≡ log.file_id
      → g.stat (log_path log.file_id) ≡ none
      → let t = (save_log f log d).1 in
        ((save_log f log d).0 ≡ err (wrap "create log file error: " e))
        × (lookup (log_path log.file_id) t ≡ some (take n log.update_file))
        × (save_log g again t ≡ (ok tt, t))
  save_log-broken g again same s =
      let kept = lookup-inserted (log_path log.file_id) (take n log.update_file) _ in
      rw (broken_off) (
        refl,
        kept,
        saved_already g again _ (take n log.update_file) (rw same named) (rw same s) (rw same kept),
      )
