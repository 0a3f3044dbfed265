-- ===== src/Files.antt =====
-- serve/route/core.go: the ids of stored files, which name the machine that stores the file.
pub mod RoundTrip
use page_spy_api.Base.{String, List, [], ◌∷◌}
use page_spy_api.Base.Text.{split, concat, dot}
use page_spy_api.Failure.{Outcome, ok, err, text}

-- CreateFileId
unfoldable pub create_file_id : String → String → String
create_file_id self_machine_id md5 = concat self_machine_id (concat "." md5)

abbrev machine_of_words : List String → Outcome String
machine_of_words (m ∷ name ∷ []) = ok m
machine_of_words _ = err (text "file name format error")

-- GetMachineIdByFileName
unfoldable pub get_machine_id_by_file_name : String → Outcome String
get_machine_id_by_file_name name = machine_of_words (split dot name)
