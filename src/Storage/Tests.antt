-- ===== src/Storage/Tests.antt =====
-- Files of two small logs on a disk.
use page_spy_api.Base.{take, none, some, List, [], ◌∷◌, String, refl, ◌≡◌, false}
use page_spy_api.Base.Dict.{lookup, insert, delete}
use page_spy_api.Failure.{ok, err, text}
use page_spy_api.Storage.{Bytes, LogFile}
use page_spy_api.Storage.Disk.{Disk, Faults}
use page_spy_api.Storage.FileApi.{log_path, wrap, save_log, file_api, remove_log, exist_log}
use page_spy_api.Storage.Refinement.{
  no_faults, Call, save_call, get_call, exist_call, remove_call, done, there, serve, replies,
  specified, view, replies-specified,
}
use page_spy_api.Storage.Partial.{save_log-broken}

abbrev small_log : String → Bytes → LogFile
small_log id b = record {
  name = "small";
  file_id = id;
  size = 3;
  tags = [];
  update_file = b;
  file_stream = none;
}

abbrev some_calls : List Call
some_calls =
    save_call (small_log "a.1" (1 ∷ 2 ∷ 3 ∷ []))
    ∷ save_call (small_log "a.1" (9 ∷ []))
    ∷ get_call "a.1"
    ∷ remove_call "a.1"
    ∷ exist_call "a.1"
    ∷ get_call "a.1"
    ∷ exist_call ""
    ∷ []

abbrev old_disk : Disk
old_disk = ("./log/a.2", 5 ∷ []) ∷ []

replies-specified_example :
    replies (serve (file_api no_faults)) some_calls old_disk
    ≡ replies specified some_calls (view old_disk)
replies-specified_example = replies-specified some_calls old_disk

saves_and_removes :
    replies
      (serve (file_api no_faults))
      (save_call (small_log "a.1" (1 ∷ [])) ∷ remove_call "a.1" ∷ exist_call "a.1" ∷ [])
      old_disk
    ≡ done (ok tt) ∷ done (ok tt) ∷ there (ok false) ∷ []
unfolding file_api save_log remove_log exist_log lookup insert delete
saves_and_removes = refl

-- A disk that is full after two bytes.
abbrev full : Faults
full = record no_faults { write = λ _. some (2, text "no space left on device") }

abbrev first_log : LogFile
first_log = small_log "a.1" (1 ∷ 2 ∷ 3 ∷ [])

save_log-broken_example :
    let t = (save_log full first_log old_disk).1 in
    ((save_log full first_log old_disk).0
      ≡ err (wrap "create log file error: " (text "no space left on device")))
    × (lookup (log_path "a.1") t ≡ some (take 2 (1 ∷ 2 ∷ 3 ∷ [])))
    × (save_log no_faults first_log t ≡ (ok tt, t))
unfolding lookup
save_log-broken_example =
    save_log-broken full first_log old_disk 2 (text "no space left on device") refl refl refl refl
      refl no_faults first_log refl refl
