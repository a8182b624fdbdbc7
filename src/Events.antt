-- ===== src/Events.antt =====
-- The last events of the daemon and those who listen to them: events/events.go. The lock makes each
-- function one step on the state. A listener, a channel, is a number.
pub mod Ring
pub mod Listeners
mod Tests
use docker.Common.{
  ℕ, ◌+◌, Bool, true, false, ◌&&◌, ◌||◌, Option, none, some, List, [], ◌∷◌, ◌++◌, Text, length,
  drop, leb, ◌==◌, if◌then◌else◌, nat_eq,
}

abbrev pub events_limit : ℕ
events_limit = 64

-- A JSONMessage of an event; its time is in seconds since 1970.
pub record Event : Type 0 where
  pub status : Text
  pub id : Text
  pub from : Text
  pub time : ℕ

abbrev pub Listener : Type 0
Listener = ℕ

pub record Events : Type 0 where
  pub events : List Event
  pub subscribers : List Listener

abbrev pub new_events : Events
new_events = record { events = []; subscribers = [] }

-- The oldest event goes when the slice, whose capacity is the limit, is full.
unfoldable pub push : Event → List Event → List Event
push jm events =
    if length events == events_limit then drop 1 events ++ (jm ∷ []) else events ++ (jm ∷ [])

-- The loop over the subscribers: those that take the event within their 100 ms.
unfoldable pub deliver : (Listener → Bool) → Event → List Listener → List (Listener × Event)
deliver takes jm [] = []
deliver takes jm (s ∷ subscribers) =
    let rest = deliver takes jm subscribers in if takes s then (s, jm) ∷ rest else rest

-- `log` at a time, and what it sends.
unfoldable pub log :
    (Listener → Bool) → ℕ → Text → Text → Text → Events → Events × List (Listener × Event)
unfolding push deliver
log takes now action id from e =
    let jm : Event = record { status = action; id = id; from = from; time = now } in
    (record e { events = push jm e.events }, deliver takes jm e.subscribers)

unfoldable pub subscribe : Listener → Events → Events
subscribe l e = record e { subscribers = e.subscribers ++ (l ∷ []) }

-- The loop of `unsubscribe`: the subscribers but the first that is the listener.
unfoldable pub remove_first : Listener → List Listener → Option (List Listener)
remove_first l [] = none
remove_first l (subscriber ∷ subscribers) =
    let rest = remove_first l subscribers in
    if subscriber == l
    then some subscribers
    else elim rest [ none ↦ none | some kept ↦ some (subscriber ∷ kept) ]

unfoldable pub unsubscribe : Listener → Events → Events × Bool
unfolding remove_first
unsubscribe l e = elim (remove_first l e.subscribers) [
  | none ↦ (e, false)
  | some kept ↦ (record e { subscribers = kept }, true)
]

unfoldable pub subscribers_count : Events → ℕ
subscribers_count e = length e.subscribers

abbrev pub in_interval : ℕ → ℕ → Event → Bool
in_interval since until event = leb since event.time && (leb event.time until || until == 0)

-- The events that are written, and whether all writes succeed; `writes` is whether a write does.
unfoldable pub write_events : (Event → Bool) → ℕ → ℕ → List Event → List Event × Bool
write_events writes since until [] = ([], true)
write_events writes since until (event ∷ events) =
    let rest = write_events writes since until events in
    if in_interval since until event
    then (if writes event then (event ∷ rest.0, rest.1) else ([], false))
    else rest

unfoldable pub write_current : (Event → Bool) → ℕ → ℕ → Events → List Event × Bool
write_current writes since until e = write_events writes since until e.events

-- What the loop of `Get` receives.
pub data Signal : Type 0 where
  received : Event → Signal
  closed timed_out : Signal

-- The loop of `Get`: the events it writes, and whether it ends well; `none` while it still waits.
unfoldable pub serve : (Event → Bool) → List Signal → Option (List Event × Bool)
serve writes [] = none
serve writes (closed ∷ signals) = some ([], true)
serve writes (timed_out ∷ signals) = some ([], true)
serve writes (received event ∷ signals) =
    let rest = serve writes signals in
    if writes event
    then elim rest [ none ↦ none | some (written, fine) ↦ some (event ∷ written, fine) ]
    else some ([], false)
