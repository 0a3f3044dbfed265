-- ===== src/Core/Tests.antt =====
-- An upload to an instance with a disk and a database in memory.
use page_spy_api.Base.{ℕ, refl, String, none, some, List, [], ◌∷◌, ◌≡◌}
use page_spy_api.Failure.{ok}
use page_spy_api.Storage.{Bytes, LogFile}
use page_spy_api.Storage.Disk.{Disk}
use page_spy_api.Storage.Refinement.{view, first_of}
use page_spy_api.Data.{LogData, log_key}
use page_spy_api.Base.Number.{decimal}
use page_spy_api.Pages.{Page, call_all_client, uniq_data, uniq_from}
use page_spy_api.Core.Listing.{desc, get_file_list}
use page_spy_api.Data.Memory.{memory, memory-Working}
use page_spy_api.Core.{CoreApi, with_id, create_file, get_file}
use page_spy_api.Core.Stored.{local_core, get_file-create_file}

abbrev upload : LogFile
upload = record {
  name = "error.json";
  file_id = "";
  size = 3;
  tags = record { key = "os"; value = "ios" } ∷ [];
  update_file = 1 ∷ 2 ∷ 3 ∷ [];
  file_stream = none;
}

-- A digest.
abbrev digest : Bytes → String
digest b = "9e1"

abbrev instance_a : CoreApi (Disk × List LogData)
instance_a = local_core memory "A" digest

get_file-create_file_example :
    (t : Disk × List LogData) × (out : LogFile) × (create_file instance_a 5 upload ([], [])
      ≡ (ok (with_id instance_a upload), t))
    × (get_file instance_a (with_id instance_a upload).file_id t ≡ (ok out, t))
    × (out.file_id ≡ (with_id instance_a upload).file_id)
    × (out.file_stream
        ≡ some (first_of (view [] (with_id instance_a upload).file_id) (1 ∷ 2 ∷ 3 ∷ [])))
get_file-create_file_example = get_file-create_file memory "A" digest memory-Working 5 upload [] []

abbrev row : ℕ → ℕ → LogData
row n at = record {
  id = n;
  created_at = at;
  status = "Saved";
  size = 1;
  file_id = "A.9e1";
  tags = [];
  name = "error.json";
}

-- The pages of two instances with one database, whose row both answer.
abbrev of_a : Page log_key
of_a = record { total = 2; rows = row 1 5000 ∷ row 2 9000 ∷ [] }

abbrev of_b : Page log_key
of_b = record { total = 1; rows = row 2 9000 ∷ [] }

two_pages :
    get_file_list (ok of_a ∷ ok of_b ∷ [])
    ≡ ok (record { total = 3; rows = row 2 9000 ∷ row 1 5000 ∷ [] })
unfolding get_file_list desc call_all_client uniq_data uniq_from decimal
two_pages = refl
