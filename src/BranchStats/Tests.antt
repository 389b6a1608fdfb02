-- ===== src/BranchStats/Tests.antt =====
-- Two routes, recorded by three workers.
use flow_routine.Prelude.{
  ℕ, ◌≡◌, refl, true, false, some, List, [], ◌∷◌, arith, get_elem?, ◌==◌, if◌then◌else◌,
}
use flow_routine.Prelude.Int.{pos}
use flow_routine.BranchStats.{
  record_selection, record_total, record_outcome, on_shard, BranchRouteDescriptor,
  BranchRouteSnapshot, init_branch_routes, shard_count,
}
use flow_routine.BranchStats.Counted.{
  record_event, Event, Request, Recorded, idle, select, begin, end, record_all, count_all,
  calls_for,
}
use flow_routine.BranchStats.Snapshots.{branch_route_snapshots}
use flow_routine.BranchStats.Reports.{Reports, last_history, branch_route_snapshots-Reports}

abbrev descriptors : List BranchRouteDescriptor
descriptors =
    record { branch_id = "b"; route_id = "a"; name = "a" }
    ∷ record { branch_id = "b"; route_id = "c"; name = "c" }
    ∷ []

abbrev success_by_2 : Request
success_by_2 = record { success = true; route_index = 1; worker_index = 2 }

abbrev failure_by_7 : Request
failure_by_7 = record { success = false; route_index = 1; worker_index = 7 }

-- The request of worker 7 has not ended.
abbrev history : List Event
history =
    Event.ended true 1 2
    ∷ Event.begun 1 7
    ∷ Event.begun 1 2
    ∷ Event.selected 1 2
    ∷ Event.selected 0 0
    ∷ Event.selected 9 0
    ∷ []

history-Recorded : Recorded (failure_by_7 ∷ []) history
history-Recorded =
    end (failure_by_7 ∷ []) [] success_by_2
      (begin failure_by_7 (begin success_by_2 (select 1 2 (select 0 0 (select 9 0 idle)))))

-- Worker 2 makes a request between the loads of the total and of the successes of its shard.
abbrev request_between : ℕ → List Event
request_between n = if n == 22 then Event.ended true 1 2 ∷ Event.begun 1 2 ∷ [] else []

-- The snapshot has the success of that request and not its total.
abbrev second : BranchRouteSnapshot
second = record {
  branch_id = "b";
  route_id = "c";
  name = "c";
  selections = 1;
  total = 2;
  success = 2;
  failed = 0;
}

snapshot-second :
    get_elem? (branch_route_snapshots (pos 3) descriptors history request_between) 1 ≡ some second
unfolding branch_route_snapshots record_all record_event on_shard init_branch_routes record_total
    record_outcome record_selection shard_count
snapshot-second = refl

branch_route_snapshots-Reports_example :
    (s : BranchRouteSnapshot) × (get_elem?
        (branch_route_snapshots (pos 3) descriptors history request_between)
        1
      ≡ some s)
    × Reports
        (count_all 1 history)
        (count_all 1 (last_history (pos 3) descriptors history request_between))
        (calls_for 1 (failure_by_7 ∷ []))
        s
branch_route_snapshots-Reports_example =
    branch_route_snapshots-Reports (pos 3) descriptors (failure_by_7 ∷ []) history history-Recorded
      request_between 1 (omega arith)
