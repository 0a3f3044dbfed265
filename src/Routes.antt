-- ===== src/Routes.antt =====
-- serve/route/route.go: the handlers of logs, over the CoreApi
-- of one instance; serve/middleware/error.go. The router is a library: a handler is given what it
-- reads of the request, and gives what it answers, or the machine that it hands the request to.
pub mod Params
pub mod Lists
pub mod Queries
pub mod Forwarding
pub mod Tests
use page_spy_api.Base.{
  ℕ, String, Bool, true, false, not, ◌||◌, ◌++◌, Option, none, some, List, [], ◌∷◌, map, length,
  ◌==◌, if◌then◌else◌,
}
use page_spy_api.Base.Dict.{Dict, lookup}
use page_spy_api.Base.Number.{atoi}
use page_spy_api.Base.Text.{concat, join, space}
use page_spy_api.Failure.{GoError, wrapped, error_text, Outcome, ok, err, panic, text, serve_error}
use page_spy_api.World.Action.{Action, Done, ◌>>=◌, ◌>>◌, pure, lift, fail}
use page_spy_api.Files.{get_machine_id_by_file_name}
use page_spy_api.Storage.{Bytes, Tag, LogFile, LogGroupFile}
use page_spy_api.Data.{Label}
use page_spy_api.Data.Query.{FileListQuery}
use page_spy_api.Core.{
  CoreApi, create_file, create_log_group_file, list_files_in_group, get_file, delete_file,
}
use page_spy_api.Responses.{
  HttpReply, Payload, truth, stored, stored_in_group, some_logs, counts, new_success_response,
  new_error_response,
}
use page_spy_api.Routes.Params.{QueryParams, query_param, get_tags, include}

-- A handler's answer, a file with its name and size, or the machine that the request is handed to.
pub data Handled : Type 0 where
  replied : HttpReply → Handled
  sends : LogFile → Handled
  proxied : String → Handled

abbrev pub success : Payload → Handled
success d = replied (record { status = 200; body = new_success_response d })

-- A file of a form: it may be missing, not open, or not be read.
pub record FormFile : Type 0 where
  pub file_name : String
  pub file_size : ℕ
  pub opens : Option GoError
  pub content : Outcome Bytes

abbrev context : String → GoError → GoError
context s e = wrapped (concat s (error_text e)) e

abbrev content_of : Option GoError → Outcome Bytes → Outcome Bytes
content_of (some e) b = err (context "open upload file error: " e)
content_of none (err e) = err (context "read upload file error: " e)
content_of none b = b

abbrev pub uploaded : String → ℕ → List Tag → Bytes → LogFile
uploaded name size tags b = record {
  name = name;
  file_id = "";
  size = size;
  tags = tags;
  update_file = b;
  file_stream = none;
}

module _ {S : Type 0} (c : CoreApi S) where
  -- IsSelfMachine
  abbrev pub is_self_machine : String → Bool
  is_self_machine machine = c.self_machine_id == machine

  -- Proxy, over the machines of the cluster's configuration, each of which has a proxy
  unfoldable pub proxy : List String → String → Action S Handled
  proxy machines m =
      if include machines m
      then pure (proxied m)
      else fail (text (concat "get proxy by machineId " (concat m " not found")))

  -- The route /log/download
  unfoldable pub handle_download : List String → String → Action S Handled
  unfolding get_machine_id_by_file_name get_file proxy ◌>>=◌
  handle_download machines id = do
    machine ← lift (get_machine_id_by_file_name id)
    if is_self_machine machine
        then (do file ← get_file c id; pure (sends file))
        else proxy machines machine

  -- The loop of /log/delete
  unfoldable pub delete_ids : List String → List String → Action S Handled
  unfolding get_machine_id_by_file_name delete_file new_success_response proxy ◌>>=◌
  delete_ids machines [] = pure (success truth)
  delete_ids machines (id ∷ ids) = do
    machine ← lift (get_machine_id_by_file_name id)
    let later = delete_ids machines ids
    if is_self_machine machine then (do delete_file c id; later) else proxy machines machine

  -- The route /log/delete
  unfoldable pub handle_delete : Bool → List String → List String → Action S Handled
  unfolding delete_ids
  handle_delete true machines ids = fail (text "not allowed delete log")
  handle_delete false machines ids = delete_ids machines ids

  -- The route /logGroup/files
  unfoldable pub handle_group_files : String → Action S Handled
  unfolding list_files_in_group new_success_response ◌>>=◌
  handle_group_files id =
      if id == ""
      then fail (text "groupId is required")
      else (do logs ← list_files_in_group c id; pure (success (some_logs logs)))

  -- The route /log/count
  unfoldable pub handle_count : String → Action S Handled
  unfolding new_success_response ◌>>=◌
  handle_count key = do found ← c.data_of.count_logs_group key; pure (success (counts found))

  -- The route /log/upload
  unfoldable pub handle_upload : ℕ → QueryParams → Outcome FormFile → Action S Handled
  unfolding create_file get_tags new_success_response ◌>>=◌
  handle_upload now q form = do
    f ← lift form
    b ← lift (content_of f.opens f.content)
    file ← create_file c now (uploaded f.file_name f.file_size (get_tags q) b)
    pure (success (stored file))

  -- The route /jsonLog/upload, with the request's body
  unfoldable pub handle_json_upload : ℕ → QueryParams → Outcome Bytes → Action S Handled
  unfolding create_file get_tags query_param new_success_response ◌>>=◌
  handle_json_upload now q body = do
    b ← lift (json_body body)
    file ← create_file c now (uploaded (query_param q "name") (length b) (get_tags q) b)
    pure (success (stored file))
    where
      json_body : Outcome Bytes → Outcome Bytes
      json_body (err e) = err (context "open upload file error: " e)
      json_body b = b

  -- The route /logGroup/upload
  unfoldable pub handle_group_upload : ℕ → QueryParams → Outcome FormFile → Action S Handled
  unfolding create_log_group_file get_tags query_param new_success_response ◌>>=◌
  handle_group_upload now q form = do
    f ← lift form
    b ← lift (content_of f.opens f.content)
    let id = query_param q "groupId"
    let file = uploaded f.file_name f.file_size (get_tags q) b
    if id == "" then fail (text "groupId is required") else (do
      g ← create_log_group_file c now (record { log_file = file; group_id = id })
      pure (success (stored_in_group g)))

-- The middleware Error, on what the handler behind it returned
unfoldable pub handle_error : Outcome Handled → Outcome Handled
unfolding new_error_response
handle_error (ok h) = ok h
handle_error panic = panic
handle_error (err e) =
    let r = new_error_response e in
    ok (replied (record { status = if r.code == serve_error then 500 else 400; body = r }))
