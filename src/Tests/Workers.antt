-- ===== src/Tests/Workers.antt =====
-- A replication worker that is started and stopped.
use d7024e_lab.Prelude.{[], inl, length, none, refl, ◌≡◌, ◌≤◌}
use d7024e_lab.Kademlia.Worker.{
  Runs, Worker, begin_worker, begun, end_wait, goes_on, leaves, no_worker, start_worker, starts,
  stepped, stop_worker, stops,
}
use d7024e_lab.Kademlia.Worker.Single.{Runs-Single}

abbrev started : Worker
started = start_worker 60 no_worker

started-Runs : Runs started
started-Runs = stepped no_worker started begun (starts no_worker 60 refl)

abbrev asked_to_stop : Worker
asked_to_stop = stop_worker started

asked_to_stop-Runs : Runs asked_to_stop
unfolding start_worker begin_worker
asked_to_stop-Runs = stepped started asked_to_stop started-Runs (stops started refl)

abbrev left : Worker
left = record asked_to_stop { live = [] }

left-Runs : Runs left
unfolding start_worker begin_worker stop_worker
left-Runs =
    stepped asked_to_stop left asked_to_stop-Runs (leaves asked_to_stop 0 [] [] refl (inl refl))

Runs-Single_example :
    (length (end_wait left).live ≤ 1) × ((end_wait left).stop ≡ none → (end_wait left).live ≡ [])
Runs-Single_example =
    Runs-Single (end_wait left) (stepped left (end_wait left) left-Runs (goes_on left refl))
