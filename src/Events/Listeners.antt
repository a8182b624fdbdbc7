-- ===== src/Events/Listeners.antt =====
-- Subscribing and unsubscribing, and what a listener is sent again.
use docker.Common.{
  ℕ, ◌≡◌, refl, ap, Bool, true, false, some, inl, inr, List, [], ◌∷◌, ◌++◌, arith, Bool-cases,
  ==_refl, if◌then◌else◌, nat_eq,
}
use docker.Common.Maps.{contains}
use docker.Events.{
  Event, Events, Listener, subscribe, remove_first, unsubscribe, write_events, write_current,
  in_interval,
}

remove_first-append :
    (l : Listener) (s : List Listener)
    → contains l s ≡ false
    → remove_first l (s ++ (l ∷ [])) ≡ some s
unfolding remove_first contains
remove_first-append l [] h = ground (arith, ==_refl l)
remove_first-append l (x ∷ s) h = ground (arith, remove_first-append l s)

-- A listener that is new to the events is found when it is unsubscribed, and leaves the
-- subscribers as they were before it subscribed.
unsubscribe-subscribe :
    (l : Listener) (e : Events)
    → contains l e.subscribers ≡ false
    → unsubscribe l (subscribe l e) ≡ (e, true)
unfolding unsubscribe subscribe
unsubscribe-subscribe l e h =
    rw (remove_first-append l e.subscribers h, unsubscribe, subscribe) refl

-- Events of the interval that are to be written again.
abbrev pub replay : ℕ → ℕ → List Event → List Event
replay since until [] = []
replay since until (e ∷ es) =
    let rest = replay since until es in if in_interval since until e then e ∷ rest else rest

abbrev pub Written : List Event → List Event × Bool → Type 0
Written expected (written, true) = written ≡ expected
Written expected (written, false) = (rest : List Event) × (written ++ rest ≡ expected)

write_events-Written :
    (writes : Event → Bool) (since until : ℕ) (es : List Event)
    → Written (replay since until es) (write_events writes since until es)
unfolding write_events
write_events-Written writes since until [] = refl
write_events-Written writes since until (e ∷ es) = elim (Bool-cases (in_interval since until e)) [
  | inr out ↦ rw (out, write_events) (write_events-Written writes since until es)
  | inl in' ↦ elim (Bool-cases (writes e)) [
    | inr stuck ↦ rw (in', stuck, write_events) (e ∷ replay since until es, refl)
    | inl fine ↦
        rw (in', fine, write_events)
          (cons (write_events writes since until es) (write_events-Written writes since until es))
  ]
]
  where
    cons :
        (r : List Event × Bool)
        → Written (replay since until es) r
        → Written (e ∷ replay since until es) (e ∷ r.0, r.1)
    cons (written, true) h = ap (λ (t : List Event). e ∷ t) h
    cons (written, false) h = (h.0, ap (λ (t : List Event). e ∷ t) h.1)

-- What writeCurrent writes are the kept events of the interval in their order, all of them if
-- every write succeeds, and a first part of them otherwise.
write_current-Written :
    (writes : Event → Bool) (since until : ℕ) (e : Events)
    → Written (replay since until e.events) (write_current writes since until e)
unfolding write_current
write_current-Written writes since until e = write_events-Written writes since until e.events
