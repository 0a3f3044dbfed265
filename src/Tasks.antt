-- ===== src/Tasks.antt =====
-- task/task.go: tasks that run at intervals, and their manager. A task's function is an action on
-- what it works on; the ticks of its ticker are counted.
pub mod Closing
pub mod Tests
use page_spy_api.Base.{ℕ, zero, suc, String, Option, none, some, [], ◌∷◌, Bool, true, false}
use page_spy_api.Base.Dict.{Dict, lookup, insert}
use page_spy_api.Base.Text.{concat}
use page_spy_api.Failure.{Outcome, ok, err, panic, text}
use page_spy_api.World.Action.{Action, Done}

-- A channel that is only closed; a nil channel is never ready.
pub data Channel : Type 0 where
  nil_channel : Channel
  open_channel : Channel
  closed_channel : Channel

-- close(c)
unfoldable pub close_channel : Channel → Outcome Channel
close_channel nil_channel = panic
close_channel open_channel = ok closed_channel
close_channel closed_channel = panic

-- Task, over what its function works on; a started task has a ticker.
pub record Task (W : Type 0) : Type 1 where
  pub name : String
  pub interval : ℕ
  pub function : Action W Done
  pub ticking : Bool
  pub done : Channel

-- TaskManager
abbrev pub TaskManager : Type 0 → Type 1
TaskManager W = Dict (Task W)

module _ {W : Type 0} where
  -- NewTask
  unfoldable pub new_task : String → ℕ → Action W Done → Task W
  new_task name interval f = record {
    name = name;
    interval = interval;
    function = f;
    ticking = false;
    done = nil_channel;
  }

  -- run: an error is logged, and a panic is recovered from and logged.
  unfoldable pub run : Task W → Action W Done
  run t w = (ok tt, (t.function w).1)

  -- The goroutine of Star, while its ticker ticks a number of times and done is not closed.
  unfoldable pub ticks : Task W → ℕ → Action W Done
  unfolding run
  ticks t zero w = (ok tt, w)
  ticks t (suc n) w = ticks t n (run t w).1

  -- Star
  unfoldable pub star : Task W → Task W
  star t = record t { ticking = true }

  -- Close, of a task
  abbrev pub closed_task : Task W → Outcome Channel → Outcome (Task W)
  closed_task t (ok c) = ok (record t { done = c })
  closed_task t (err e) = err e
  closed_task t panic = panic

  unfoldable pub close_task : Task W → Outcome (Task W)
  unfolding close_channel
  close_task t = closed_task t (close_channel t.done)

  abbrev pub add_unless : Task W → TaskManager W → Option (Task W) → Outcome Done × TaskManager W
  add_unless t m (some old) = (err (text (concat "task " (concat old.name " already exists"))), m)
  add_unless t m none = (ok tt, insert t.name (star t) m)

  -- AddTask
  unfoldable pub add_task : Task W → TaskManager W → Outcome Done × TaskManager W
  unfolding star
  add_task t m = add_unless t m (lookup t.name m)

  -- TaskManager.Close: the tasks in the order in which the map is ranged over
  abbrev pub close_next :
      String → Outcome (Task W) → Outcome (TaskManager W) → Outcome (TaskManager W)
  close_next k (ok t) (ok m) = ok ((k, t) ∷ m)
  close_next k (ok t) (err e) = err e
  close_next k (ok t) panic = panic
  close_next k (err e) m = err e
  close_next k panic m = panic

  unfoldable pub close_tasks : TaskManager W → Outcome (TaskManager W)
  unfolding close_task
  close_tasks [] = ok []
  close_tasks ((k, t) ∷ m) = close_next k (close_task t) (close_tasks m)
