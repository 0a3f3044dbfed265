-- ===== src/Storage/Disk.antt =====
-- The calls of package os that storage/file.go makes: files by the text of their path, and the
-- errors that the operating system may answer with, which are parameters.
use page_spy_api.Base.{take, ℕ, String, Option, none, some, [], length}
use page_spy_api.Base.Text.{concat}
use page_spy_api.Base.Dict.{Dict, lookup, insert, delete}
use page_spy_api.Failure.{GoError, Outcome, ok, err, text}
use page_spy_api.Storage.{Bytes}

abbrev pub Disk : Type 0
Disk = Dict Bytes

-- The error that a call on a path ends with, if any. A write may fail behind some of its bytes.
pub record Faults : Type 0 where
  pub stat : String → Option GoError
  pub create : String → Option GoError
  pub write : String → Option (ℕ × GoError)
  pub open_file : String → Option GoError
  pub remove : String → Option GoError

-- What os.Stat answers: the file's size, that there is none, or another error.
pub data Stat : Type 0 where
  found : ℕ → Stat
  not_exist : Stat
  failed : GoError → Stat

abbrev pub stat_of : Option GoError → Option Bytes → Stat
stat_of (some e) content = failed e
stat_of none (some b) = found (length b)
stat_of none none = not_exist

-- os.Stat
abbrev pub os_stat : Faults → String → Disk → Stat
os_stat f path d = stat_of (f.stat path) (lookup path d)

-- The error of a file that does not exist.
abbrev pub not_exist_error : String → GoError
not_exist_error path = text (concat "no such file or directory: " path)

-- os.Create makes the file, or empties it.
abbrev pub os_create : Faults → String → Disk → Option GoError × Disk
os_create f path d = elim (f.create path) [ some e ↦ (some e, d) | none ↦ (none, insert path [] d) ]

-- Write, to a file that was just created
abbrev pub os_write : Faults → String → Bytes → Disk → Option GoError × Disk
os_write f path b d = elim (f.write path) [
  | some p ↦ (some p.1, insert path (take p.0 b) d)
  | none ↦ (none, insert path b d)
]

-- os.Open, and all that the stream yields
abbrev pub os_open : Faults → String → Disk → Outcome Bytes
os_open f path d = elim (f.open_file path) [
  | some e ↦ err e
  | none ↦ elim (lookup path d) [ some b ↦ ok b | none ↦ err (not_exist_error path) ]
]

-- os.Remove
abbrev pub os_remove : Faults → String → Disk → Option GoError × Disk
os_remove f path d = elim (f.remove path) [
  | some e ↦ (some e, d)
  | none ↦ elim (lookup path d) [
    | some b ↦ (none, delete path d)
    | none ↦ (some (not_exist_error path), d)
  ]
]
