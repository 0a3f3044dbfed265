-- ===== src/Tasks/Closing.antt =====
-- task/task.go: what becomes of Close of a manager whose tasks NewTask made.
use page_spy_api.Base.{
  ℕ, String, Option, none, some, List, [], ◌∷◌, ◌≡◌, inl, inr, refl, ◌==◌, Bool-cases,
}
use page_spy_api.Base.Dict.{lookup, insert}
use page_spy_api.Failure.{panic}
use page_spy_api.World.Action.{Action, Done}
use page_spy_api.Tasks.{
  nil_channel, Task, TaskManager, new_task, star, add_task, add_unless, close_tasks, close_task,
  close_channel,
}

-- The arguments of NewTask
abbrev pub Job : Type 0 → Type 0
Job W = String × ℕ × Action W Done

module _ {W : Type 0} where
  -- AddTask of a new task for each job, whose errors are passed over
  abbrev pub added : List (Job W) → TaskManager W → TaskManager W
  added [] m = m
  added ((name, interval, f) ∷ jobs) m = added jobs (add_task (new_task name interval f) m).1

  -- The first task that the map gives has no channel.
  abbrev HeadNil : TaskManager W → Type 1
  HeadNil m =
      (k : String) × (t : Task W) × (rest : TaskManager W) × (m ≡ (k, t) ∷ rest)
      × (t.done ≡ nil_channel)

  insert-HeadNil :
      (name : String) (t : Task W) (m : TaskManager W)
      → t.done ≡ nil_channel
      → HeadNil m
      → HeadNil (insert name t m)
  unfolding insert
  insert-HeadNil name t m e (k, u, rest, at, h) = elim (Bool-cases (k == name)) [
    | inl same ↦ (k, t, rest, rw (at, same) refl, e)
    | inr other ↦ (k, u, insert name t rest, rw (at, other) refl, h)
  ]

  unless-HeadNil :
      (t : Task W) (m : TaskManager W) (o : Option (Task W))
      → t.done ≡ nil_channel
      → HeadNil m
      → HeadNil (add_unless t m o).1
  unfolding star
  unless-HeadNil t m (some old) e h = h
  unless-HeadNil t m none e h = insert-HeadNil t.name (star t) m e h

  added-HeadNil : (jobs : List (Job W)) (m : TaskManager W) → HeadNil m → HeadNil (added jobs m)
  unfolding add_task new_task
  added-HeadNil [] m h = h
  added-HeadNil ((name, interval, f) ∷ jobs) m h =
      let t = new_task name interval f in
      added-HeadNil jobs _ (unless-HeadNil t m (lookup name m) refl h)

  close-HeadNil : (m : TaskManager W) → HeadNil m → close_tasks m ≡ panic
  unfolding close_tasks close_task close_channel
  close-HeadNil m (k, t, rest, at, h) = rw (at, close_tasks, close_task, h) refl

  -- Close of a manager panics once a task that NewTask made was added, whatever its jobs are.
  pub close_tasks-added :
      (name : String) (interval : ℕ) (f : Action W Done) (jobs : List (Job W))
      → close_tasks (added ((name, interval, f) ∷ jobs) []) ≡ panic
  unfolding add_task new_task star lookup insert
  close_tasks-added name interval f jobs =
      let t = new_task name interval f in
      close-HeadNil (added jobs _) (added-HeadNil jobs _ (name, star t, [], refl, refl))
