-- ===== src/Storage.antt =====
-- storage/api.go: what a store of files offers, and the files it is given and gives back. Bytes are
-- a list of numbers, a stream is the bytes it will yield, and a time or a size is a number.
pub mod Disk
pub mod FileApi
pub mod Refinement
pub mod Kept
pub mod Partial
pub mod RemoteApi
pub mod Tests
use page_spy_api.Base.{ℕ, String, Bool, Option, List}
use page_spy_api.Failure.{Outcome}
use page_spy_api.World.Action.{Action, Done}

abbrev pub Bytes : Type 0
Bytes = List ℕ

-- Tag
pub record Tag : Type 0 where
  pub key : String
  pub value : String

-- LogFile: the stream is there in a file that was read.
pub record LogFile : Type 0 where
  pub name : String
  pub file_id : String
  pub size : ℕ
  pub tags : List Tag
  pub update_file : Bytes
  pub file_stream : Option Bytes

-- LogGroupFile
pub record LogGroupFile : Type 0 where
  pub log_file : LogFile
  pub group_id : String

-- The stream and the size that Get returns
pub record Opened : Type 0 where
  pub stream : Bytes
  pub stream_size : ℕ

-- StorageApi, over the state that its calls change. Reading the stream that Save is given may fail.
pub record StorageApi (S : Type 0) : Type 0 where
  pub save_log : LogFile → Action S Done
  pub get_log : String → Action S LogFile
  pub exist_log : String → Action S Bool
  pub remove_log : String → Action S Done
  pub save : String → Outcome Bytes → Action S Done
  pub exist : String → Action S Bool
  pub get : String → Action S Opened
