-- ===== src/Core/Stored.antt =====
-- An uploaded log, from CreateFile to GetFile, over the disk and the database.
use page_spy_api.Base.{ℕ, String, false, some, ◌==◌, ◌≡◌, refl, sym, ap, ◌∙◌, ==-false}
use page_spy_api.Base.Text.{concat, dot, dot_text, concat-behind-ne-nil}
use page_spy_api.Failure.{ok}
use page_spy_api.World.Action.{Action, ◌>>=◌}
use page_spy_api.Files.{create_file_id}
use page_spy_api.Storage.{Bytes, LogFile, StorageApi}
use page_spy_api.Storage.Disk.{Disk}
use page_spy_api.Storage.FileApi.{file_api, save_log, get_log}
use page_spy_api.Storage.Refinement.{no_faults, view, first_of}
use page_spy_api.Storage.Kept.{read_file, get_log_lem, save_log_lem}
use page_spy_api.Data.{Gorm, LogData}
use page_spy_api.Data.Rows
use page_spy_api.Data.Api.{DataApi, data_api}
use page_spy_api.Data.Saved.{Working, find_log_by_file_id-create_log}
use page_spy_api.Core.{CoreApi, with_id, log_data, create_file, get_file}

-- An action on one of two states that do not share anything.
module _ {A B X : Type 0} where
  abbrev on_first : Action A X → Action (A × B) X
  on_first m p = let (r, a) = m p.0 in (r, (a, p.1))

  abbrev on_second : Action B X → Action (A × B) X
  on_second m p = let (r, b) = m p.1 in (r, (p.0, b))

module _ {A B : Type 0} where
  abbrev pub beside_data : StorageApi A → StorageApi (A × B)
  beside_data api = record {
    save_log = λ log. on_first (api.save_log log);
    get_log = λ id. on_first (api.get_log id);
    exist_log = λ id. on_first (api.exist_log id);
    remove_log = λ id. on_first (api.remove_log id);
    save = λ path b. on_first (api.save path b);
    exist = λ path. on_first (api.exist path);
    get = λ path. on_first (api.get path);
  }

  abbrev pub beside_files : DataApi B → DataApi (A × B)
  beside_files api = record {
    create_log_group = λ g. on_second (api.create_log_group g);
    update_log_group = λ g. on_second (api.update_log_group g);
    find_log_group = λ id. on_second (api.find_log_group id);
    find_log_groups = λ q. on_second (api.find_log_groups q);
    delete_log_group_by_group_id = λ id. on_second (api.delete_log_group_by_group_id id);
    count_logs_group = λ key. on_second (api.count_logs_group key);
    create_log = λ l. on_second (api.create_log l);
    find_logs = λ q. on_second (api.find_logs q);
    update_log_status = λ id status. on_second (api.update_log_status id status);
    delete_log_by_file_id = λ id. on_second (api.delete_log_by_file_id id);
    find_log_by_file_id = λ id. on_second (api.find_log_by_file_id id);
    find_timeout_logs = λ t n. on_second (api.find_timeout_logs t n);
    find_oldest_logs = λ n. on_second (api.find_oldest_logs n);
    count_logs_size = on_second api.count_logs_size;
  }

-- An instance that stores its files on a disk that works, beside a database.
unfoldable pub local_core : {S : Type 0} → Gorm S → String → (Bytes → String) → CoreApi (Disk × S)
local_core g machine md5 = record {
  storage = beside_data (file_api no_faults);
  data_of = beside_files (data_api g);
  self_machine_id = machine;
  md5 = md5;
}

module _ {S : Type 0} (g : Gorm S) (machine : String) (md5 : Bytes → String) where
  create_lem :
      (now : ℕ) (given : LogFile) (d d' : Disk) (s s' : S)
      → let c = local_core g machine md5 in
        let file = with_id c given in
        save_log no_faults file d ≡ (ok tt, d')
        → Rows.create_log g (log_data now file) s ≡ (ok tt, s')
        → create_file c now given (d, s) ≡ (ok file, (d', s'))
  unfolding local_core create_file ◌>>=◌ file_api data_api
  create_lem now given d d' s s' e f = rw (e, f) refl

  get_lem :
      (id : String) (r : LogData) (file : LogFile) (d : Disk) (s : S)
      → Rows.find_log_by_file_id g id s ≡ (ok (some r), s)
      → get_log no_faults id d ≡ (ok file, d)
      → get_file (local_core g machine md5) id (d, s) ≡ (ok (record file { name = r.name }), (d, s))
  unfolding local_core get_file ◌>>=◌ file_api data_api
  get_lem id r file d s e f = rw (e, f) refl

  named : (b : String) → (create_file_id machine b == "") ≡ false
  unfolding create_file_id
  named b =
      ==-false (concat machine (concat "." b)) ""
        λ e. concat-behind-ne-nil machine dot b (ap (concat machine) (sym (dot_text b)) ∙ e)

  -- On a disk that works and a database that can be reached, CreateFile returns the file under its
  -- id, and GetFile of this id then gives a file with this id and the bytes that were stored under
  -- it first: those that the disk held, or else those of the upload.
  pub get_file-create_file :
      Working g.log_table
      → (now : ℕ) (given : LogFile) (d : Disk) (s : S)
      → let c = local_core g machine md5 in
        let file = with_id c given in
        (t : Disk × S) × (out : LogFile) × (create_file c now given (d, s) ≡ (ok file, t))
        × (get_file c file.file_id t ≡ (ok out, t))
        × (out.file_id ≡ file.file_id)
        × (out.file_stream ≡ some (first_of (view d file.file_id) given.update_file))
  unfolding local_core
  get_file-create_file w now given d s =
      let file = with_id (local_core g machine md5) given in
      let (d', saved, there) = save_log_lem file d (named (md5 given.update_file)) in
      let (r, s', made, found, own, again) =
        find_log_by_file_id-create_log g w (log_data now file) s refl in
      let read = read_file file.file_id (first_of (view d file.file_id) given.update_file) in
      let got =
        get_log_lem file.file_id d' (first_of (view d file.file_id) given.update_file)
          (named (md5 given.update_file)) there in
      (
        (d', s'),
        record read { name = r.name },
        create_lem now given d d' s s' saved made,
        get_lem file.file_id r read d' s' found got,
        refl,
        refl,
      )
