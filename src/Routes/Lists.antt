-- ===== src/Routes/Lists.antt =====
-- serve/route/route.go: the routes that list logs and groups over all instances, with what the
-- instances answer to a query as a parameter, and the one that deletes groups.
use page_spy_api.Base.{String, Bool, true, false, List, [], ◌∷◌}
use page_spy_api.Failure.{GoError, Outcome, text}
use page_spy_api.World.Action.{Action, ◌>>=◌, ◌>>◌, pure, lift, fail}
use page_spy_api.Data.{log_key, group_key}
use page_spy_api.Data.Query.{FileListQuery}
use page_spy_api.Pages.{Page}
use page_spy_api.Core.{CoreApi, delete_log_group}
use page_spy_api.Core.Listing.{get_file_list, get_log_group_list}
use page_spy_api.Responses.{truth, log_page, group_page, new_success_response}
use page_spy_api.Routes.{Handled, success}
use page_spy_api.Routes.Params.{QueryParams, get_query_list}

module _ {S : Type 0} (bad_number : String → GoError) where
  -- The route /log/list
  unfoldable pub handle_log_list :
      (FileListQuery → List (Outcome (Page log_key))) → QueryParams → Action S Handled
  unfolding get_query_list get_file_list new_success_response ◌>>=◌
  handle_log_list answers q = do
    query ← lift (get_query_list bad_number q)
    logs ← lift (get_file_list (answers query))
    pure (success (log_page logs))

  -- The route /logGroup/list
  unfoldable pub handle_group_list :
      (FileListQuery → List (Outcome (Page group_key))) → QueryParams → Action S Handled
  unfolding get_query_list get_log_group_list new_success_response ◌>>=◌
  handle_group_list answers q = do
    query ← lift (get_query_list bad_number q)
    groups ← lift (get_log_group_list (answers query))
    pure (success (group_page groups))

module _ {S : Type 0} (c : CoreApi S) where
  -- The loop of /logGroup/delete
  unfoldable pub delete_groups : List String → Action S Handled
  unfolding delete_log_group new_success_response ◌>>=◌
  delete_groups [] = pure (success truth)
  delete_groups (id ∷ ids) = do delete_log_group c id; delete_groups ids

  -- The route /logGroup/delete
  unfoldable pub handle_group_delete : Bool → List String → Action S Handled
  unfolding delete_groups
  handle_group_delete true ids = fail (text "not allowed delete log")
  handle_group_delete false ids = delete_groups ids
