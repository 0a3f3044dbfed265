-- ===== src/Storage/Kept.antt =====
-- A log that was saved on a disk that works, and what GetLog gives of it.
use page_spy_api.Base.{
  String, false, some, [], length, ◌==◌, eq_refl, ◌≡◌, refl, ◌∙◌, Option-cases, inl, inr,
}
use page_spy_api.Base.Dict.{lookup, insert, lookup-insert}
use page_spy_api.Failure.{ok}
use page_spy_api.Storage.{Bytes, LogFile}
use page_spy_api.Storage.Disk.{Disk, os_stat}
use page_spy_api.Storage.FileApi.{log_path, save_log, save_log_at, get_log, get, log_of}
use page_spy_api.Storage.Refinement.{no_faults, view, first_of, open_found}

-- The file that GetLog makes of what it reads.
abbrev pub read_file : String → Bytes → LogFile
read_file id b = record {
  name = "";
  file_id = id;
  size = length b;
  tags = [];
  update_file = [];
  file_stream = some b;
}

pub get_log_lem :
    (id : String) (d : Disk) (b : Bytes)
    → (id == "") ≡ false
    → view d id ≡ some b
    → get_log no_faults id d ≡ (ok (read_file id b), d)
unfolding get_log get
get_log_lem id d b h e = rw (h, log_of, os_stat, e, open_found (log_path id) d b e) refl

pub save_log_lem :
    (log : LogFile) (d : Disk)
    → (log.file_id == "") ≡ false
    → (d' : Disk) × (save_log no_faults log d ≡ (ok tt, d'))
      × (view d' log.file_id ≡ some (first_of (view d log.file_id) log.update_file))
unfolding save_log
save_log_lem log d h =
    let path = log_path log.file_id in
    let new = insert path log.update_file (insert path [] d) in
    elim (Option-cases (lookup path d)) [
      | inl e ↦ (
        new,
        rw (h, save_log_at, os_stat, e) refl,
        lookup-insert path path log.update_file (insert path [] d)
            ∙ rw (eq_refl path) (rw (view, e) refl),
      )
      | inr (old, e) ↦ (d, rw (h, save_log_at, os_stat, e) refl, rw (view, e) refl)
    ]
