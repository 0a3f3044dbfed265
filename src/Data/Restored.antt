-- ===== src/Data/Restored.antt =====
-- data/db.go: the file that one instance puts in the remote store is the one that another gets,
-- over storage/s3.go.
use page_spy_api.Base.{Bool-cases, inl, inr, String, none, some, [], ◌∷◌, length, ◌≡◌, ◌≢◌, refl}
use page_spy_api.Base.Dict.{lookup, insert, lookup-insert}
use page_spy_api.Base.Path.{join_all}
use page_spy_api.Failure.{ok}
use page_spy_api.World.Action.{◌>>=◌}
use page_spy_api.Storage.{Bytes, Opened}
use page_spy_api.Storage.Disk.{Disk, os_open}
use page_spy_api.Storage.RemoteApi.{S3, stands, remote_api, save, exist, get}
use page_spy_api.Storage.Refinement.{no_faults}
use page_spy_api.Data.File.{
  Local, DataDir, a_file, a_directory, no_entry, file_exists, get_local_data_file_path,
  init_data_file_path, load_data, sync_data,
}

abbrev pub whole : Bytes → Opened
whole b = record { stream = b; stream_size = length b }

-- A bucket that can be reached: a key that was put stands there, with its bytes.
pub record Reachable {S : Type 0} (s3 : S3 S) : Type 0 where
  pub session : s3.new_session ≡ none
  pub put : (k : String) (b : Bytes) (s : S) → (s3.put_object k (ok b) s).0 ≡ ok tt
  pub head :
      (k : String) (b : Bytes) (s : S) → s3.head_object k (s3.put_object k (ok b) s).1 ≡ stands
  pub got :
      (k : String) (b : Bytes) (s : S)
      → s3.get_object k (s3.put_object k (ok b) s).1 ≡ (ok (whole b), (s3.put_object k (ok b) s).1)

module _ {S : Type 0} (s3 : S3 S) (r : Reachable s3) (base_dir log_dir : String) where
  -- The key of the database's file, and what the bucket is when the file was put there
  abbrev file_key : String
  file_key = join_all (log_dir ∷ "data/data.db" ∷ [])

  abbrev put_there : Bytes → S → S
  put_there content s = (s3.put_object file_key (ok content) s).1

  path_lem :
      (d : Disk) → lookup "data.db" d ≡ none → get_local_data_file_path no_faults d ≡ "data/data.db"
  unfolding get_local_data_file_path file_exists
  path_lem d e = elim (Bool-cases (file_exists no_faults "data/data.db" d)) [
    | inl h ↦ rw (e, h) refl
    | inr h ↦ rw (e, h) refl
  ]

  sync_lem :
      (a : Local S) (content : Bytes)
      → lookup "data.db" a.files ≡ none
      → lookup "data/data.db" a.files ≡ some content
      → sync_data no_faults none log_dir (remote_api s3 base_dir log_dir) a
        ≡ (ok tt, record a { remote = put_there content a.remote })
  unfolding sync_data file_exists remote_api save
  sync_lem a content e h =
      rw (path_lem a.files e, h, os_open, r.session, r.put file_key content a.remote) refl

  made :
      (b : Local S) (d : DataDir)
      → d ≢ a_file
      → init_data_file_path no_faults none (record b { data_dir = d })
        ≡ (ok tt, record b { data_dir = a_directory })
  unfolding init_data_file_path
  made b no_entry ne = refl
  made b a_file ne = absurd (ne refl)
  made b a_directory ne = refl

  -- The instance behind loadData
  abbrev loaded : Local S → Bytes → S → Local S
  loaded b content s = record {
    files = insert "data/data.db" content (insert "data/data.db" [] b.files);
    data_dir = a_directory;
    remote = put_there content s;
  }

  load_lem :
      (b : Local S) (content : Bytes) (s : S)
      → lookup "data.db" b.files ≡ none
      → lookup "data/data.db" b.files ≡ none
      → b.data_dir ≢ a_file
      → load_data no_faults none log_dir
          (remote_api s3 base_dir log_dir)
          (record b { remote = put_there content s })
        ≡ (ok tt, loaded b content s)
  unfolding load_data file_exists remote_api exist get ◌>>=◌
  load_lem b content s e h ne =
      rw
        (
          path_lem b.files e,
          h,
          r.session,
          r.head file_key content s,
          r.got file_key content s,
          made (record b { remote = put_there content s }) b.data_dir ne,
        )
        refl

  -- If the database's file of an instance is the one in `data` and the bucket can be reached,
  -- syncData returns without an error, and loadData of an instance that has no such file, with
  -- what syncData left in the bucket, gives it one with the same bytes; on disks that work, and
  -- if `data` is not a file there.
  pub load_data-sync_data :
      (a b : Local S) (content : Bytes)
      → lookup "data.db" a.files ≡ none
      → lookup "data/data.db" a.files ≡ some content
      → lookup "data.db" b.files ≡ none
      → lookup "data/data.db" b.files ≡ none
      → b.data_dir ≢ a_file
      → let store = remote_api s3 base_dir log_dir in
        let (done, a') = sync_data no_faults none log_dir store a in
        (t : Local S) × (done ≡ ok tt)
        × (load_data no_faults none log_dir store (record b { remote = a'.remote }) ≡ (ok tt, t))
        × (lookup "data/data.db" t.files ≡ some content)
  load_data-sync_data a b content ra da rb db ne =
      let e = sync_lem a content ra da in
      rw e (
        loaded b content a.remote,
        refl,
        load_lem b content a.remote rb db ne,
        lookup-insert "data/data.db" "data/data.db" content (insert "data/data.db" [] b.files),
      )
