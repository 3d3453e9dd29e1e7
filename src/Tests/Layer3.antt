-- ===== src/Tests/Layer3.antt =====
-- Runs of the event stream (layer3), on events without data.
use aizo.Prelude.{◌≤◌, ◌≡◌, String, false, List, [], ◌∷◌, ◌++◌, length, arith}
use aizo.Layer3.EventStream.{Event, EventStream, new_event_stream}
use aizo.Layer3.EventStream.Order.{
  Step, publishing, processing, subscribing, unsubscribing, receiving, run, accepted, run-order,
  rounds, rounds-drain,
}
use aizo.Layer3.EventStream.Open.{run-new_calm}

abbrev event : String → Event (Unit {0})
event name = record {
  id = "";
  event_type = "alert";
  entity_id = name;
  timestamp = 0;
  source = "test";
  severity = "info";
  message = "";
  content = tt;
}

-- A buffer of two events, with one in it.
abbrev stream : EventStream (Unit {0})
stream = record {
  buffer_size = 2;
  buffer = event "a" ∷ [];
  subscribers = [];
  channels = λ n. record { queue = []; closed = false };
  next = 0;
  events = [];
  panicked = false;
}

abbrev steps : List (Step (Unit {0}))
steps =
    subscribing "a"
    ∷ publishing (event "b") "1" 5
    ∷ publishing (event "c") "2" 6
    ∷ processing
    ∷ unsubscribing "a" 0
    ∷ receiving 0
    ∷ []

run-order_example :
    ((run stream steps).events ++ (run stream steps).buffer
      ≡ (stream.events ++ stream.buffer) ++ accepted stream steps)
    × (length (run stream steps).buffer ≤ (run stream steps).buffer_size)
run-order_example = run-order stream steps (omega arith)

rounds-drain_example :
    ((rounds 2 stream).buffer ≡ []) × ((rounds 2 stream).events ≡ stream.events ++ stream.buffer)
rounds-drain_example = rounds-drain 2 stream (omega arith)

run-new_calm_example : (run (new_event_stream {D = Unit {0}} 2) steps).panicked ≡ false
run-new_calm_example = run-new_calm 2 steps
