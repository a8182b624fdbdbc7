-- ===== src/Events/Ring.antt =====
-- The events that are kept are the last ones.
use docker.Common.{
  ℕ, zero, suc, ◌-◌, ◌≤◌, ◌≡◌, refl, sym, ap, ◌∙◌, Bool, true, false, inl, inr, List, [], ◌∷◌, ◌++◌,
  length, drop, length-append, length-drop, arith, Bool-cases, ◌==◌, ==_iff, nat_eq,
}
use mathlib.Core.List.{append_assoc, append-nil}
use docker.Events.{Event, Events, events_limit, push, log, Listener, new_events}

drop-append : (k : ℕ) (xs ys : List Event) → k ≤ length xs → drop k (xs ++ ys) ≡ drop k xs ++ ys
drop-append zero xs ys h = refl
drop-append (suc k) [] ys h = absurd (omega arith)
drop-append (suc k) (x ∷ xs) ys h = drop-append k xs ys (omega arith)

drop-drop : (k : ℕ) (xs : List Event) → drop 1 (drop k xs) ≡ drop (suc k) xs
drop-drop zero xs = refl
drop-drop (suc k) [] = refl
drop-drop (suc k) (x ∷ xs) = drop-drop k xs

-- The last events of a history, as many as are kept.
abbrev pub last_events : List Event → List Event
last_events history = drop (length history - events_limit) history

full_length :
    (past : List Event)
    → (length (last_events past) == events_limit) ≡ true
    → events_limit ≤ length past
full_length past e = omega (
  arith,
  length-drop (length past - events_limit) past,
  (==_iff (length (last_events past)) events_limit).0 e,
)

short_length :
    (past : List Event)
    → (length (last_events past) == events_limit) ≡ false
    → suc (length past) ≤ events_limit
short_length past e = ground (
  arith,
  length-drop (length past - events_limit) past,
  ==_iff (length (last_events past)) events_limit,
)

push_full :
    (jm : Event) (xs : List Event)
    → (length xs == events_limit) ≡ true
    → push jm xs ≡ drop 1 xs ++ (jm ∷ [])
unfolding push
push_full jm xs e = rw (e, push) refl

push_short :
    (jm : Event) (xs : List Event)
    → (length xs == events_limit) ≡ false
    → push jm xs ≡ xs ++ (jm ∷ [])
unfolding push
push_short jm xs e = rw (e, push) refl

push-last_events :
    (past : List Event) (jm : Event) → push jm (last_events past) ≡ last_events (past ++ (jm ∷ []))
push-last_events past jm =
    let k = length past - events_limit in
    elim (Bool-cases (length (last_events past) == events_limit)) [
      | inl full ↦
          let next : suc k ≡ length (past ++ (jm ∷ [])) - events_limit =
            omega (arith, length-append past (jm ∷ []), full_length past full) in
          push_full jm (last_events past) full
          ∙ ap (λ (t : List Event). t ++ (jm ∷ [])) (drop-drop k past)
          ∙ sym (drop-append (suc k) past (jm ∷ []) (omega (arith, full_length past full)))
          ∙ ap (λ (m : ℕ). drop m (past ++ (jm ∷ []))) next
      | inr short ↦
          let none_yet : k ≡ 0 = omega (arith, short_length past short) in
          let next : 0 ≡ length (past ++ (jm ∷ [])) - events_limit =
            omega (arith, length-append past (jm ∷ []), short_length past short) in
          push_short jm (last_events past) short
          ∙ ap (λ (m : ℕ). drop m past ++ (jm ∷ [])) none_yet
          ∙ ap (λ (m : ℕ). drop m (past ++ (jm ∷ []))) next
    ]

-- Events that are logged one after the other, at their times.
abbrev pub log_all : (Listener → Bool) → List Event → Events → Events
log_all takes [] e = e
log_all takes (jm ∷ jms) e = log_all takes jms (log takes jm.time jm.status jm.id jm.from e).0

log_all-from :
    (takes : Listener → Bool) (jms past : List Event) (e : Events)
    → e.events ≡ last_events past
    → (log_all takes jms e).events ≡ last_events (past ++ jms)
unfolding log
log_all-from takes [] past e h = h ∙ ap last_events (sym (append-nil past))
log_all-from takes (jm ∷ jms) past e h =
    log_all-from takes jms (past ++ (jm ∷ [])) (log takes jm.time jm.status jm.id jm.from e).0
      (ap (push jm) h ∙ push-last_events past jm)
    ∙ ap last_events (append_assoc past (jm ∷ []) jms)

-- After any sequence of logged events, whoever listens, the events that are kept are the last 64 of
-- them in their order, or all of them if there are fewer.
pub log_all-last_events :
    (takes : Listener → Bool) (history : List Event)
    → (log_all takes history new_events).events ≡ last_events history
log_all-last_events takes history = log_all-from takes history [] new_events refl
