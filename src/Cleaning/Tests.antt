-- ===== src/Cleaning/Tests.antt =====
-- Three logs, of which the oldest cannot be deleted and the next one is enough.
use page_spy_api.Base.{◌≡◌, ℕ, String, refl, none, some, [], ◌∷◌, ◌==◌, arith, if◌then◌else◌}
use page_spy_api.Failure.{ok, text}
use page_spy_api.Cleaning.{
  Log, Stores, Gone, clean_file_by_size, delete_file, delete_row, delete_log_group,
}
use page_spy_api.World.Action.{◌>>=◌}
use page_spy_api.Cleaning.Group.{GroupDeleted, delete_log_group-GroupDeleted}
use page_spy_api.Cleaning.Amount.{Cleaned, clean_file_by_size-Cleaned}

abbrev log : String → ℕ → Log
log id size = record { file_id = id; size = size }

abbrev stores : Stores
stores = record {
  remove_log = λ id. if id == "a" then some (text "busy") else none;
  delete_log = λ id. none;
  delete_log_group_by_group_id = λ id. none;
  count_logs_size = ok 90;
  find_oldest_logs = λ n. ok (log "a" 10 ∷ log "b" 30 ∷ log "c" 50 ∷ []);
  find_timeout_logs = λ t n. ok [];
}

abbrev nothing : Gone
nothing = record { files = []; rows = []; groups = [] }

clean_file_by_size-Cleaned_example :
    Cleaned stores 20
      (log "a" 10 ∷ log "b" 30 ∷ log "c" 50 ∷ [])
      nothing
      (clean_file_by_size stores 70 nothing)
clean_file_by_size-Cleaned_example =
    clean_file_by_size-Cleaned stores 70 90 (log "a" 10 ∷ log "b" 30 ∷ log "c" 50 ∷ []) nothing refl
      refl (omega arith)

delete_log_group-GroupDeleted_example :
    GroupDeleted stores "g"
      (log "b" 30 ∷ log "a" 10 ∷ [])
      nothing
      (delete_log_group stores "g" (ok (some (log "b" 30 ∷ log "a" 10 ∷ []))) nothing)
delete_log_group-GroupDeleted_example =
    delete_log_group-GroupDeleted stores "g" (log "b" 30 ∷ log "a" 10 ∷ []) nothing

-- A group whose logs and row are deleted.
emptied :
    delete_log_group stores "g" (ok (some (log "b" 30 ∷ []))) nothing
    ≡ (ok tt, record { files = "b" ∷ []; rows = "b" ∷ []; groups = "g" ∷ [] })
unfolding delete_log_group delete_row delete_file ◌>>=◌
emptied = refl
