-- ===== src/Files/RoundTrip.antt =====
-- The machine that a file's id names.
use page_spy_api.Base.{String, ◌≡◌, refl}
use page_spy_api.Base.Text.{Free, dot, dot_text, split-append, split-Free}
use page_spy_api.Failure.{ok}
use page_spy_api.Files.{create_file_id, get_machine_id_by_file_name}

-- The id that an instance gives to a file names that instance, provided that neither its machine id
-- nor the digest holds a dot.
pub get_machine_id_by_file_name-create_file_id :
    (machine md5 : String)
    → Free dot machine
    → Free dot md5
    → get_machine_id_by_file_name (create_file_id machine md5) ≡ ok machine
unfolding get_machine_id_by_file_name create_file_id
get_machine_id_by_file_name-create_file_id machine md5 fm fd =
    rw (dot_text md5, split-append dot machine md5 fm, split-Free dot md5 fd) refl
