-- ===== src/Examples/Events.antt =====
-- A hub with two clients (internal/events/events.go).
use sftp_relay.Base.{ℕ, List, [], ◌∷◌}
use sftp_relay.Events.{type_progress, type_done, Event, Hub, new_hub, subscribe}
use sftp_relay.Events.Trace.{Op, publishes, subscribes, unsubscribes, receives, run}
use sftp_relay.Events.Delivery.{IsStream, joined, subscribe-run}

abbrev tick : Event ℕ
tick = record { type = type_progress; job_id = 7; payload = 40 }

abbrev finished : Event ℕ
finished = record { type = type_done; job_id = 7; payload = 100 }

abbrev first_client : Hub ℕ
first_client = new_hub ℕ

abbrev calls : List (Op ℕ)
calls =
    publishes tick 1000000000
    ∷ subscribes
    ∷ publishes tick 1200000000
    ∷ publishes finished 1300000000
    ∷ receives 1
    ∷ unsubscribes 1
    ∷ publishes tick 9000000000
    ∷ receives 1
    ∷ []

subscribe-run_example :
    let i = (subscribe first_client).1 in IsStream i (run i calls (joined first_client))
subscribe-run_example = subscribe-run first_client calls
