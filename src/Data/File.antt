-- ===== src/Data/File.antt =====
-- data/db.go: the file of the SQLite database, and how an instance with a remote store gets it
-- from there and puts it there. os.Mkdir and what stands at the path `data` are beside the disk.
use page_spy_api.Base.{String, Bool, true, false, Option, none, some, [], ◌∷◌, if◌then◌else◌}
use page_spy_api.Base.Text.{concat}
use page_spy_api.Base.Path.{join_all}
use page_spy_api.Failure.{GoError, error_text, Outcome, ok, err, panic, text}
use page_spy_api.World.Action.{Action, Done, ◌>>=◌, ◌>>◌, pure, fail, halt}
use page_spy_api.Storage.{Bytes, StorageApi}
use page_spy_api.Storage.Disk.{
  Disk, Faults, Stat, found, not_exist, failed, os_stat, os_create, os_write, os_open,
}

-- What stands at the path `data`.
pub data DataDir : Type 0 where
  no_entry : DataDir
  a_file : DataDir
  a_directory : DataDir

-- An instance's working directory, beside the state of the remote store.
pub record Local (S : Type 0) : Type 0 where
  pub files : Disk
  pub data_dir : DataDir
  pub remote : S

abbrev is_found : Stat → Bool
is_found (found n) = true
is_found not_exist = false
is_found (failed e) = false

-- util.FileExists
unfoldable pub file_exists : Faults → String → Disk → Bool
file_exists f path d = is_found (os_stat f path d)

-- getLocalDataFilePath
unfoldable pub get_local_data_file_path : Faults → Disk → String
unfolding file_exists
get_local_data_file_path f d =
    if file_exists f "data.db" d
    then "data.db"
    else if file_exists f "data/data.db" d
    then "data/data.db"
    else "data/data.db"

abbrev no_directory : GoError
no_directory = text "failed to create data directory"

-- Whether initDataFilePath makes it: os.Stat of `data` answers that there is nothing, or no directory.
abbrev wants_directory : Option GoError → DataDir → Bool
wants_directory (some e) _ = false
wants_directory none a_directory = false
wants_directory none no_entry = true
wants_directory none a_file = true

abbrev named : {A : Type 0} → String → Outcome A → Outcome A
named what (ok a) = ok a
named what (err e) = err (text (concat what (error_text e)))
named what panic = panic

abbrev done_or : Option GoError → Outcome Done
done_or none = ok tt
done_or (some e) = err e

module _ {S : Type 0} (f : Faults) (mkdir : Option GoError) where
  -- os.Mkdir of `data`, which fails on an entry that is there
  abbrev make_directory : Action (Local S) Done
  make_directory m = elim m.data_dir [
    | no_entry ↦ elim mkdir [
      | none ↦ (ok tt, record m { data_dir = a_directory })
      | some e ↦ (err no_directory, m)
    ]
    | a_file ↦ (err no_directory, m)
    | a_directory ↦ (err no_directory, m)
  ]

  -- initDataFilePath
  unfoldable pub init_data_file_path : Action (Local S) Done
  init_data_file_path m =
      if wants_directory (f.stat "data") m.data_dir then make_directory m else (ok tt, m)

  abbrev at_remote : {A : Type 0} → Action S A → Action (Local S) A
  at_remote a m = let (r, s) = a m.remote in (r, record m { remote = s })

  -- An error of the remote store in a text of its own
  abbrev asking : {A : Type 0} → String → Action S A → Action (Local S) A
  asking what a m = let (r, s) = a m.remote in (named what r, record m { remote = s })

  -- os.Create
  abbrev create_file : String → Action (Local S) Done
  create_file path m = let (e, d) = os_create f path m.files in (done_or e, record m { files = d })

  -- io.Copy to the file
  abbrev copy_to : String → Bytes → Action (Local S) Done
  copy_to path b m = let (e, d) = os_write f path b m.files in (done_or e, record m { files = d })

  module _ (log_dir : String) (store : StorageApi S) where
    abbrev pub remote_path : String → String
    remote_path path = join_all (log_dir ∷ path ∷ [])

    -- loadData, when the remote store has the file
    abbrev fetch : String → Action (Local S) Done
    fetch path = do
      o ← asking "failed to get remote data file " (store.get (remote_path path))
      init_data_file_path
      create_file path
      copy_to path o.stream

    -- loadData, when there is no local file
    abbrev load_missing : String → Action (Local S) Done
    load_missing path = do
      there ← asking "failed to head remote data file " (store.exist (remote_path path))
      if there then fetch path else pure tt

    -- loadData
    unfoldable pub load_data : Action (Local S) Done
    unfolding get_local_data_file_path file_exists ◌>>=◌
    load_data m =
        let path = get_local_data_file_path f m.files in
        if file_exists f path m.files then (ok tt, m) else load_missing path m

    abbrev put_read : String → Outcome Bytes → Action (Local S) Done
    put_read path (ok b) = at_remote (store.save (remote_path path) (ok b))
    put_read path (err e) = fail e
    put_read path panic = halt

    -- syncData
    unfoldable pub sync_data : Action (Local S) Done
    unfolding get_local_data_file_path file_exists
    sync_data m =
        let path = get_local_data_file_path f m.files in
        if file_exists f path m.files then put_read path (os_open f path m.files) m else (ok tt, m)
