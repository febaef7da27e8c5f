-- ===== src/Tests/Queues.antt =====
-- The queue of a workspace, and the waits for it.
use etok.Base.{true, ◌≡◌, ◌↔◌, refl, ◌++◌, filter, contains}
use etok.Queue.{assign, filter_runs, update_combined_queue}
use etok.Queue.Order.{others}
use etok.Queue.Laws.{
  combined, EligibleNamed, update_combined_queue-eligible, update_combined_queue-order,
}
use etok.Tests.Data.{ne, workspace, runs}

update_combined_queue-eligible_example :
    (contains (combined (update_combined_queue workspace runs)) "b" ≡ true)
    ↔ EligibleNamed workspace runs "b"
update_combined_queue-eligible_example =
    update_combined_queue-eligible workspace runs "b" (refl, (refl, (refl, _))) (ne "b" "" refl)

update_combined_queue-order_example :
    update_combined_queue workspace runs
    ≡ assign workspace (
        filter (contains (filter_runs workspace runs)) (combined workspace)
        ++ others (combined workspace) (filter_runs workspace runs))
update_combined_queue-order_example =
    update_combined_queue-order workspace runs (refl, (refl, _)) (refl, (refl, (refl, _)))
