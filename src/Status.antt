-- ===== src/Status.antt =====
-- state/status_machine.go: the status that rooms, managers and RPC clients carry.
use page_spy_api.Base.{Bool, true, false}

pub data Status : Type 0 where
  init_status running_status close_status error_status : Status

-- The value of an atomic.Value, read and written whole.
pub record StatusMachine : Type 0 where
  pub status : Status

abbrev pub new_status_machine : StatusMachine
new_status_machine = record { status = init_status }

abbrev pub set_status : Status → StatusMachine → StatusMachine
set_status s e = record { status = s }

abbrev pub same_status : Status → Status → Bool
same_status init_status init_status = true
same_status running_status running_status = true
same_status close_status close_status = true
same_status error_status error_status = true
same_status _ _ = false

abbrev pub is_status : StatusMachine → Status → Bool
is_status e s = same_status e.status s
