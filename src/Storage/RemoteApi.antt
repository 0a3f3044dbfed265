-- ===== src/Storage/RemoteApi.antt =====
-- storage/s3.go: RemoteApi, over the library's client of a bucket, which is a parameter.
use page_spy_api.Base.{String, Bool, true, false, Option, none, some, [], ◌∷◌}
use page_spy_api.Base.Path.{join_all}
use page_spy_api.Base.Text.{concat}
use page_spy_api.Failure.{GoError, wrapped, error_text, Outcome, ok, err, panic}
use page_spy_api.World.Action.{Action, Done, ◌>>=◌, ◌>>◌, pure, fail}
use page_spy_api.Storage.{Bytes, LogFile, Opened, StorageApi}

-- What HeadObject answers: that the key is there, that it is not, or another error.
pub data Head : Type 0 where
  stands : Head
  no_such_key : Head
  refused : GoError → Head

-- The client of the configuration's bucket, and the error of NewSession, if any. WaitUntil is
-- WaitUntilObjectNotExists.
pub record S3 (S : Type 0) : Type 0 where
  pub new_session : Option GoError
  pub put_object : String → Outcome Bytes → Action S Done
  pub head_object : String → S → Head
  pub get_object : String → Action S Opened
  pub delete_object : String → Action S Done
  pub wait_until : String → Action S Done

abbrev behind : String → GoError → GoError
behind prefix e = wrapped (concat prefix (error_text e)) e

abbrev renamed : {A : Type 0} → String → Outcome A → Outcome A
renamed prefix (ok a) = ok a
renamed prefix (err e) = err (behind prefix e)
renamed prefix panic = panic

-- fmt.Errorf around the error of a call
abbrev wrapping : {S A : Type 0} → String → Action S A → Action S A
wrapping prefix m s = (renamed prefix (m s).0, (m s).1)

abbrev answer_head : Head → Outcome Bool
answer_head stands = ok true
answer_head no_such_key = ok false
answer_head (refused e) = err e

abbrev remote_log : String → Opened → LogFile
remote_log id o = record {
  name = "";
  file_id = id;
  size = o.stream_size;
  tags = [];
  update_file = [];
  file_stream = some o.stream;
}

module _ {S : Type 0} (s3 : S3 S) (base_dir log_dir : String) where
  -- joinPath
  abbrev pub join_path : String → String
  join_path id = join_all (base_dir ∷ log_dir ∷ id ∷ [])

  -- newSession, and what is done with the session
  abbrev with_session : {A : Type 0} → Action S A → Action S A
  with_session m = elim s3.new_session [
    | none ↦ m
    | some e ↦ fail (behind "failed to create sessionion: " e)
  ]

  unfoldable pub save : String → Outcome Bytes → Action S Done
  save path data_ = with_session (wrapping "failed to put object: " (s3.put_object path data_))

  unfoldable pub save_log : LogFile → Action S Done
  unfolding save
  save_log log =
      wrapping "failed to put object: " (save (join_path log.file_id) (ok log.update_file))

  unfoldable pub exist : String → Action S Bool
  exist path = with_session (λ s. (answer_head (s3.head_object path s), s))

  unfoldable pub get : String → Action S Opened
  get path = with_session (s3.get_object path)

  unfoldable pub exist_log : String → Action S Bool
  unfolding exist
  exist_log id = exist (join_path id)

  unfoldable pub get_log : String → Action S LogFile
  unfolding get ◌>>=◌
  get_log id = do o ← get (join_path id); pure (remote_log id o)

  unfoldable pub remove_log : String → Action S Done
  unfolding ◌>>=◌
  remove_log id = with_session (do
    wrapping "failed to delete object: " (s3.delete_object (join_path id))
    wrapping "error occurred while waiting for object to be deleted: "
        (s3.wait_until (join_path id)))

  unfoldable pub remote_api : StorageApi S
  unfolding save_log get_log exist_log remove_log save exist get
  remote_api = record {
    save_log = save_log;
    get_log = get_log;
    exist_log = exist_log;
    remove_log = remove_log;
    save = save;
    exist = exist;
    get = get;
  }
