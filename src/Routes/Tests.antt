-- ===== src/Routes/Tests.antt =====
-- A list's parameters, and ids of two machines.
use page_spy_api.Base.{String, true, false, List, [], ◌∷◌, ◌==◌, eq_iff, ◌≡◌, ◌≢◌, refl}
use page_spy_api.Base.Text.{split}
use page_spy_api.Failure.{GoError, ok, err, text}
use page_spy_api.World.Action.{◌>>=◌}
use page_spy_api.Files.{get_machine_id_by_file_name}
use page_spy_api.Storage.Disk.{Disk}
use page_spy_api.Data.{LogData}
use page_spy_api.Data.Memory.{memory}
use page_spy_api.Data.Rows.{delete_log_by_file_id}
use page_spy_api.Data.Api.{data_api}
use page_spy_api.Core.{CoreApi, delete_file}
use page_spy_api.Core.Stored.{local_core}
use page_spy_api.Routes.{proxied, is_self_machine, proxy, delete_ids, handle_delete}
use page_spy_api.Routes.Params.{QueryParams, include}
use page_spy_api.Routes.Forwarding.{Deletes, handle_delete-forwarded}

abbrev params : QueryParams
params =
    ("page", "2" ∷ []) ∷ ("size", "10" ∷ []) ∷ ("os", "ios" ∷ "17" ∷ []) ∷ ("from", "3" ∷ []) ∷ []

abbrev bad : String → GoError
bad s = text "invalid syntax"

-- An instance whose store removes whatever it is asked to.
abbrev removing : CoreApi (Disk × List LogData)
removing = record (local_core memory "A0" (λ b. "9e1")) {
  storage = record ((local_core memory "A0" (λ b. "9e1")).storage) {
    remove_log = λ id s. (ok tt, s);
  };
}

removing-Deletes : Deletes removing
unfolding delete_file local_core data_api delete_log_by_file_id ◌>>=◌
removing-Deletes id m s h = (_, refl)

abbrev here : String
here = "A0"

abbrev there : String
there = "A1"

here-ne-there : here ≢ there
here-ne-there e = let f : (here == there) ≡ true = (eq_iff here there).1 e in cc

handle_delete-forwarded_example :
    (m : String) × (t : Disk × List LogData) × (handle_delete removing false
        ("A0" ∷ "A1" ∷ [])
        ("A0.1" ∷ "A1.2" ∷ [])
        ([], [])
      ≡ (ok (proxied m), t))
    × (is_self_machine removing m ≡ false)
    × (include ("A0" ∷ "A1" ∷ []) m ≡ true)
unfolding get_machine_id_by_file_name split
handle_delete-forwarded_example =
    handle_delete-forwarded removing removing-Deletes ("A0" ∷ "A1" ∷ []) ("A0.1" ∷ "A1.2" ∷ [])
      ("A0" ∷ "A1" ∷ []) "A0" "A1" ([], []) (refl, (refl, tt)) (refl, (refl, tt)) refl refl
      here-ne-there

-- A machine that is not of the cluster has no proxy.
unknown_machine :
    handle_delete removing false ("A0" ∷ "A1" ∷ []) ("A7.1" ∷ []) ([], [])
    ≡ (err (text "get proxy by machineId A7 not found"), ([], []))
unfolding handle_delete delete_ids proxy get_machine_id_by_file_name split ◌>>=◌ local_core
unknown_machine = refl
