-- ===== src/Storage/Refinement.antt =====
-- The files on a disk that works, seen as a map from ids to bytes.
use mathlib.Core.Path.{fun_ext}
use page_spy_api.Base.{
  ==-false, String, Bool, true, false, Option, none, some, List, [], ◌∷◌, ◌==◌, eq_iff, arith,
  if◌then◌else◌, ◌≡◌, refl, sym, ap, ◌∙◌, length, Option-cases, Bool-cases, inl, inr,
}
use page_spy_api.Base.Text.{concat-injective, concat-ne-nil}
use page_spy_api.Base.Dict.{lookup, insert, delete, lookup-insert, lookup-delete}
use page_spy_api.Failure.{Outcome, ok, err}
use page_spy_api.World.Action.{Done}
use page_spy_api.Storage.{Bytes, LogFile, StorageApi}
use page_spy_api.Storage.Disk.{Disk, Faults, not_exist_error, os_stat, os_open, os_remove}
use page_spy_api.Storage.FileApi.{
  log_path, wrap, empty_id, save_log, get_log, exist_log, remove_log, exist, get, file_api,
  save_log_at, log_of, remove_log_at,
}

-- No call of the operating system fails but for a file that does not exist.
abbrev pub no_faults : Faults
no_faults = record {
  stat = λ _. none;
  create = λ _. none;
  write = λ _. none;
  open_file = λ _. none;
  remove = λ _. none;
}

-- The calls of StorageApi that name a log by its id, and what they return.
pub data Call : Type 0 where
  save_call : LogFile → Call
  get_call : String → Call
  exist_call : String → Call
  remove_call : String → Call

pub data Reply : Type 0 where
  done : Outcome Done → Reply
  got : Outcome LogFile → Reply
  there : Outcome Bool → Reply

module _ {S : Type 0} where
  abbrev with_done : Outcome Done × S → Reply × S
  with_done p = (done p.0, p.1)

  abbrev with_file : Outcome LogFile × S → Reply × S
  with_file p = (got p.0, p.1)

  abbrev with_answer : Outcome Bool × S → Reply × S
  with_answer p = (there p.0, p.1)

  abbrev pub serve : StorageApi S → Call → S → Reply × S
  serve a (save_call log) s = with_done (a.save_log log s)
  serve a (get_call id) s = with_file (a.get_log id s)
  serve a (exist_call id) s = with_answer (a.exist_log id s)
  serve a (remove_call id) s = with_done (a.remove_log id s)

  -- The replies to a sequence of calls.
  abbrev pub replies : (Call → S → Reply × S) → List Call → S → List Reply
  replies f [] s = []
  replies f (c ∷ cs) s = let (r, t) = f c s in r ∷ replies f cs t

-- The abstract store: a map from ids to bytes, in which the first save of an id counts.
abbrev pub Files : Type 0
Files = String → Option Bytes

abbrev with : String → Option Bytes → Files → Files
with id b m j = if id == j then b else m j

abbrev pub first_of : Option Bytes → Bytes → Bytes
first_of (some old) b = old
first_of none b = b

abbrev file_of : String → Option Bytes → Outcome LogFile
file_of id (some b) = ok (record {
  name = "";
  file_id = id;
  size = length b;
  tags = [];
  update_file = [];
  file_stream = some b;
})
file_of id none = err (wrap "get file size error: " (not_exist_error (log_path id)))

abbrev is_there : Option Bytes → Bool
is_there (some b) = true
is_there none = false

abbrev pub specified : Call → Files → Reply × Files
specified (save_call log) m =
    if log.file_id == ""
    then (done (err (empty_id "create")), m)
    else (done (ok tt), with log.file_id (some (first_of (m log.file_id) log.update_file)) m)
specified (get_call id) m =
    if id == "" then (got (err (empty_id "get")), m) else (got (file_of id (m id)), m)
specified (exist_call id) m =
    if id == "" then (there (err (empty_id "get")), m) else (there (ok (is_there (m id))), m)
specified (remove_call id) m =
    if id == "" then (done (err (empty_id "remove")), m) else (done (ok tt), with id none m)

-- What a disk holds of each id.
abbrev pub view : Disk → Files
view d id = lookup (log_path id) d

path_of_id : (a b : String) → a ≡ b → log_path a ≡ log_path b
path_of_id a b e = ap log_path e

same_path : (a b : String) → (log_path a == log_path b) ≡ (a == b)
same_path a b = ground (
  arith,
  eq_iff a b,
  eq_iff (log_path a) (log_path b),
  concat-injective "./log/" a b,
  path_of_id a b,
)

view-insert :
    (id : String) (b : Bytes) (d : Disk)
    → view (insert (log_path id) b d) ≡ with id (some b) (view d)
view-insert id b d = fun_ext λ j. lookup-insert (log_path id) (log_path j) b d ∙ rw same_path refl

view-delete : (id : String) (d : Disk) → view (delete (log_path id) d) ≡ with id none (view d)
view-delete id d = fun_ext λ j. lookup-delete (log_path id) (log_path j) d ∙ rw same_path refl

-- A map with what it holds already.
with_same : (id : String) (m : Files) (o : Option Bytes) → m id ≡ o → with id o m ≡ m
with_same id m o e = fun_ext λ j. elim (Bool-cases (id == j)) [
  | inl h ↦ rw h (sym e ∙ ap m ((eq_iff id j).0 h))
  | inr h ↦ rw h refl
]

-- What a call on the disk gives agrees with what the specification gives.
Agrees : Reply × Disk → Reply × Files → Type 0
Agrees p q = (p.0 ≡ q.0) × (view p.1 ≡ q.1)

with_twice : (id : String) (a b : Option Bytes) (m : Files) → with id b (with id a m) ≡ with id b m
with_twice id a b m = fun_ext λ j. ground arith

view-rewritten :
    (id : String) (b : Bytes) (d : Disk)
    → view (insert (log_path id) b (insert (log_path id) [] d)) ≡ with id (some b) (view d)
view-rewritten id b d =
    view-insert id b (insert (log_path id) [] d)
    ∙ ap (with id (some b)) (view-insert id [] d)
    ∙ with_twice id (some []) (some b) (view d)

save-Agrees :
    (log : LogFile) (d : Disk)
    → Agrees (serve (file_api no_faults) (save_call log) d) (specified (save_call log) (view d))
unfolding Agrees file_api save_log
save-Agrees log d = elim (Bool-cases (log.file_id == "")) [
  | inl h ↦ rw h (refl, refl)
  | inr h ↦ elim (Option-cases (lookup (log_path log.file_id) d)) [
    | inl e ↦
        rw (h, save_log_at, os_stat, view, e) (refl, view-rewritten log.file_id log.update_file d)
    | inr (old, e) ↦
        rw (h, save_log_at, os_stat, view, e)
          (refl, sym (with_same log.file_id (view d) (some old) e))
  ]
]

pub open_found :
    (path : String) (d : Disk) (b : Bytes)
    → lookup path d ≡ some b
    → os_open no_faults path d ≡ ok b
open_found path d b e = rw (os_open, e) refl

remove_found :
    (path : String) (d : Disk) (b : Bytes)
    → lookup path d ≡ some b
    → os_remove no_faults path d ≡ (none, delete path d)
remove_found path d b e = rw (os_remove, e) refl

get-Agrees :
    (id : String) (d : Disk)
    → Agrees (serve (file_api no_faults) (get_call id) d) (specified (get_call id) (view d))
unfolding Agrees file_api get_log get
get-Agrees id d = elim (Bool-cases (id == "")) [
  | inl h ↦ rw h (refl, refl)
  | inr h ↦ elim (Option-cases (lookup (log_path id) d)) [
    | inl e ↦ rw (h, log_of, os_stat, view, e) (refl, refl)
    | inr (old, e) ↦ rw (h, log_of, os_stat, view, e, open_found (log_path id) d old e) (refl, refl)
  ]
]

path-ne-empty : (id : String) → (log_path id == "") ≡ false
path-ne-empty id = ==-false (log_path id) "" (concat-ne-nil _ "/log/" id)

exist-Agrees :
    (id : String) (d : Disk)
    → Agrees (serve (file_api no_faults) (exist_call id) d) (specified (exist_call id) (view d))
unfolding Agrees file_api exist_log exist
exist-Agrees id d = elim (Bool-cases (id == "")) [
  | inl h ↦ rw h (refl, refl)
  | inr h ↦ elim (Option-cases (lookup (log_path id) d)) [
    | inl e ↦ rw (h, e, path-ne-empty) (refl, refl)
    | inr (old, e) ↦ rw (h, e, path-ne-empty) (refl, refl)
  ]
]

remove-Agrees :
    (id : String) (d : Disk)
    → Agrees (serve (file_api no_faults) (remove_call id) d) (specified (remove_call id) (view d))
unfolding Agrees file_api remove_log
remove-Agrees id d = elim (Bool-cases (id == "")) [
  | inl h ↦ rw h (refl, refl)
  | inr h ↦ elim (Option-cases (lookup (log_path id) d)) [
    | inl e ↦ rw (h, remove_log_at, os_stat, view, e) (refl, sym (with_same id (view d) none e))
    | inr (old, e) ↦
        rw (h, remove_log_at, os_stat, view, e, remove_found (log_path id) d old e)
          (refl, view-delete id d)
  ]
]

call-Agrees : (c : Call) (d : Disk) → Agrees (serve (file_api no_faults) c d) (specified c (view d))
call-Agrees (save_call log) d = save-Agrees log d
call-Agrees (get_call id) d = get-Agrees id d
call-Agrees (exist_call id) d = exist-Agrees id d
call-Agrees (remove_call id) d = remove-Agrees id d

-- Whatever the calls and whatever files there are, a disk that does not fail answers every
-- sequence of calls as the map from ids to bytes does that it starts with.
pub replies-specified :
    (calls : List Call) (d : Disk)
    → replies (serve (file_api no_faults)) calls d ≡ replies specified calls (view d)
unfolding Agrees
replies-specified [] d = refl
replies-specified (c ∷ cs) d =
    let (e, f) = call-Agrees c d in
    rw (e, replies-specified cs (serve (file_api no_faults) c d).1, f) refl
