-- ===== src/Tasks/Tests.antt =====
-- A manager of one task that counts.
use page_spy_api.Base.{ℕ, suc, [], ◌∷◌, ◌≡◌, refl}
use page_spy_api.Failure.{ok, panic}
use page_spy_api.World.Action.{Action, Done}
use page_spy_api.Tasks.{new_task, ticks, close_tasks}
use page_spy_api.Tasks.Closing.{added, close_tasks-added}

abbrev count : Action ℕ Done
count n = (ok tt, suc n)

three_ticks : (ticks (new_task "count" 5 count) 3 0).1 ≡ 3
unfolding ticks new_task
three_ticks = refl

close_tasks-added_example :
    close_tasks (added (("count", 5, count) ∷ ("sync", 5, count) ∷ ("count", 7, count) ∷ []) [])
    ≡ panic
close_tasks-added_example =
    close_tasks-added "count" 5 count (("sync", 5, count) ∷ ("count", 7, count) ∷ [])
