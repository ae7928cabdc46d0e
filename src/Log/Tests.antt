-- ===== src/Log/Tests.antt =====
-- Runs of the model of package log, and examples.
use radiance.Common.{◌≡◌, arith, List, [], ◌∷◌}
use radiance.Log.Publisher.{new_publisher}
use radiance.Log.Publisher.Refines.{
  Event, published, subscribed, received, unsubscribed, run, run_promise, run-promise,
}

-- Three lines and one without bytes, and clients that come before, between and after them.
abbrev traffic : List Event
traffic =
    subscribed 1
    ∷ published (65 ∷ [])
    ∷ published []
    ∷ published (66 ∷ [])
    ∷ subscribed 2
    ∷ received 1
    ∷ published (67 ∷ [])
    ∷ unsubscribed 1
    ∷ subscribed 3
    ∷ []

run-promise_example :
    (run (new_publisher 2) traffic).clients
    ≡ (run_promise (record { size = 2; history = []; readers = [] }) traffic).readers
run-promise_example = run-promise 2 traffic (omega arith)
