-- ===== src/Data/Bucket.antt =====
-- A bucket in memory, and an instance's database file that goes there and comes back.
use page_spy_api.Base.{String, Option, none, some, [], ◌∷◌, ◌≡◌, refl, eq_refl}
use page_spy_api.Base.Dict.{Dict, lookup, insert, delete, lookup-insert}
use page_spy_api.Failure.{Outcome, ok, err, panic, text}
use page_spy_api.World.Action.{Action, Done}
use page_spy_api.Storage.{Bytes, Opened}
use page_spy_api.Storage.RemoteApi.{S3, Head, stands, no_such_key, remote_api}
use page_spy_api.Storage.Refinement.{no_faults}
use page_spy_api.Data.File.{Local, a_directory, no_entry, load_data, sync_data}
use page_spy_api.Data.Restored.{whole, Reachable, load_data-sync_data}

abbrev put : String → Outcome Bytes → Action (Dict Bytes) Done
put k (ok b) s = (ok tt, insert k b s)
put k (err e) s = (err e, s)
put k panic s = (panic, s)

abbrev head_of : Option Bytes → Head
head_of (some b) = stands
head_of none = no_such_key

abbrev object_of : Option Bytes → Outcome Opened
object_of (some b) = ok (whole b)
object_of none = err (text "NoSuchKey")

abbrev bucket : S3 (Dict Bytes)
bucket = record {
  new_session = none;
  put_object = put;
  head_object = λ k s. head_of (lookup k s);
  get_object = λ k s. (object_of (lookup k s), s);
  delete_object = λ k s. (ok tt, delete k s);
  wait_until = λ k s. (ok tt, s);
}

there : (k : String) (b : Bytes) (s : Dict Bytes) → lookup k (insert k b s) ≡ some b
there k b s = rw (lookup-insert k k b s, eq_refl) refl

bucket-Reachable : Reachable bucket
bucket-Reachable = record {
  session = refl;
  put = λ k b s. refl;
  head = λ k b s. rw (there k b s) refl;
  got = λ k b s. rw (there k b s) refl;
}

abbrev with_file : Local (Dict Bytes)
with_file = record {
  files = ("data/data.db", 7 ∷ 8 ∷ []) ∷ [];
  data_dir = a_directory;
  remote = [];
}

abbrev fresh : Local (Dict Bytes)
fresh = record { files = []; data_dir = no_entry; remote = [] }

load_data-sync_data_example :
    let store = remote_api bucket "spy" "log" in
    let (done, a) = sync_data no_faults none "log" store with_file in
    (t : Local (Dict Bytes)) × (done ≡ ok tt)
    × (load_data no_faults none "log" store (record fresh { remote = a.remote }) ≡ (ok tt, t))
    × (lookup "data/data.db" t.files ≡ some (7 ∷ 8 ∷ []))
unfolding lookup
load_data-sync_data_example =
    load_data-sync_data bucket bucket-Reachable "spy" "log" with_file fresh (7 ∷ 8 ∷ []) refl refl
      refl refl λ e. cc
