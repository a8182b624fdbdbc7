-- ===== src/Events/Tests.antt =====
-- A few events, and the theorems at them.
use docker.Common.{ℕ, zero, suc, some, ◌≡◌, refl, Bool, true, List, [], ◌∷◌, codes, nat_eq}
use docker.Events.{Event, Events, Listener, new_events, deliver, log, serve, received, closed}
use docker.Events.Ring.{last_events, log_all, log_all-last_events}

abbrev event : ℕ → Event
event t = record { status = codes "start"; id = codes "c1"; from = codes "img"; time = t }

abbrev ready : Listener → Bool
ready l = true

abbrev events : ℕ → List Event
events zero = []
events (suc n) = event n ∷ events n

abbrev one : Events
one = record { events = event 5 ∷ event 9 ∷ []; subscribers = 1 ∷ [] }

sent :
    (log ready 7 (codes "die") (codes "c1") (codes "img") one).1
    ≡ (1, record { status = codes "die"; id = codes "c1"; from = codes "img"; time = 7 }) ∷ []
unfolding log deliver
sent = refl

served : serve (λ e. true) (received (event 3) ∷ closed ∷ []) ≡ some (event 3 ∷ [], true)
unfolding serve
served = refl

log_all-last_events_example :
    (log_all ready (events 70) new_events).events ≡ last_events (events 70)
log_all-last_events_example = log_all-last_events ready (events 70)
