-- ===== src/Storage/Devices/Create.antt =====
-- The identifier of a new device is the first that is free.
use native.Mathlib.Decide.{ℕ_discrete}
use docker.Common.{
  ℕ, zero, suc, ◌+◌, ◌≤◌, ◌<◌, ◌≡◌, refl, sym, true, false, Option, none, some, inl, inr, List, [],
  ◌∷◌, arith, Bool-cases, leb, if◌then◌else◌, nat_eq,
}
use docker.Common.Results.{Result, ok, err}
use docker.Common.Maps.{contains, add}
use docker.Storage.Metadata.{DeviceSet, DeviceError, create_error, World}
use docker.Storage.Devices.{create_from, count, created, create_device}

-- The identifiers in use from `id` on are a bound on the rounds.
abbrev above : ℕ → List ℕ → ℕ
above id [] = 0
above id (i ∷ ids) = if leb id i then suc (above id ids) else above id ids

above-count : (id : ℕ) (ids : List ℕ) → above id ids ≤ count ids
above-count id [] = omega arith
above-count id (i ∷ ids) = ground (arith, above-count id ids)

above-step_le : (id : ℕ) (ids : List ℕ) → above (id + 1) ids ≤ above id ids
above-step_le id [] = omega arith
above-step_le id (i ∷ ids) = ground (arith, above-step_le id ids)

above-step : (id : ℕ) (ids : List ℕ) → contains id ids ≡ true → above (id + 1) ids < above id ids
unfolding contains
above-step id [] e = ground arith
above-step id (i ∷ ids) e = ground (arith, above-step_le id ids, above-step id ids)

-- The first identifier from `id` on that is free.
abbrev pub IsFirstFree : ℕ → List ℕ → ℕ → Type 0
IsFirstFree id ids found =
    (id ≤ found)
    × (contains found ids ≡ false)
    × ((j : ℕ) → id ≤ j → j < found → contains j ids ≡ true)

abbrev Tried : World → ℕ → List ℕ → Option (Result DeviceError ℕ) → Type 0
Tried w id ids none = ⊥
Tried w id ids (some (ok found)) = IsFirstFree id ids found × (w.creates found ≡ true)
Tried w id ids (some (err e)) =
    (e ≡ create_error) × ((found : ℕ) × IsFirstFree id ids found × (w.creates found ≡ false))

IsFirstFree-step :
    (id : ℕ) (ids : List ℕ) (found : ℕ)
    → contains id ids ≡ true
    → IsFirstFree (id + 1) ids found
    → IsFirstFree id ids found
IsFirstFree-step id ids found busy h = (
  omega (arith, h.0),
  h.1,
  λ j a b. elim (ℕ_discrete id j) [ yes e ↦ rw (sym e) busy | no n ↦ h.2 j (omega arith) b ],
)

Tried-step :
    (w : World) (id : ℕ) (ids : List ℕ) (r : Option (Result DeviceError ℕ))
    → contains id ids ≡ true
    → Tried w (id + 1) ids r
    → Tried w id ids r
Tried-step w id ids none busy h = h
Tried-step w id ids (some (ok found)) busy h = (IsFirstFree-step id ids found busy h.0, h.1)
Tried-step w id ids (some (err e)) busy h =
    (h.0, (h.1.0, IsFirstFree-step id ids h.1.0 busy h.1.1, h.1.2))

IsFirstFree-here : (id : ℕ) (ids : List ℕ) → contains id ids ≡ false → IsFirstFree id ids id
IsFirstFree-here id ids free = (omega arith, free, λ j a b. absurd (omega arith))

create_from-Tried :
    (w : World) (fuel id : ℕ) (ids : List ℕ)
    → above id ids < fuel
    → Tried w id ids (create_from w fuel id ids)
unfolding create_from
create_from-Tried w zero id ids h = absurd (omega arith)
create_from-Tried w (suc fuel) id ids h = elim (Bool-cases (contains id ids)) [
  | inl busy ↦
      rw (busy, create_from)
        (Tried-step w id ids _ busy
          (create_from-Tried w fuel (id + 1) ids (omega (arith, above-step id ids busy))))
  | inr free ↦ elim (Bool-cases (w.creates id)) [
    | inl yes_ ↦ rw (free, yes_, create_from) (IsFirstFree-here id ids free, yes_)
    | inr no_ ↦ rw (free, no_, create_from) (refl, (id, IsFirstFree-here id ids free, no_))
  ]
]

abbrev pub Created : World → DeviceSet → DeviceSet × Result DeviceError ℕ → Type 0
Created w s (s', ok id) =
    IsFirstFree s.next_device_id s.pool.ids id
    × (w.creates id ≡ true)
    × (s' ≡ record s { pool = record (s.pool) { ids = add id s.pool.ids } })
Created w s (s', err e) =
    (s' ≡ s)
    × (e ≡ create_error)
    × ((id : ℕ) × IsFirstFree s.next_device_id s.pool.ids id × (w.creates id ≡ false))

created-Created :
    (w : World) (s : DeviceSet) (r : Option (Result DeviceError ℕ))
    → Tried w s.next_device_id s.pool.ids r
    → Created w s (created s r)
unfolding created
created-Created w s none h = absurd h
created-Created w s (some (ok id)) h = (h.0, h.1, refl)
created-Created w s (some (err e)) h = (refl, h.0, h.1)

-- The search for the identifier of a new device ends. The first identifier from the next one on that
-- the pool does not use is given to the kernel: if the kernel creates that device, it is all that
-- changes, and otherwise nothing changes and the error says that creating failed.
pub create_device-Created : (w : World) (s : DeviceSet) → Created w s (create_device w s)
unfolding create_device
create_device-Created w s =
    created-Created w s (create_from w (suc (count s.pool.ids)) s.next_device_id s.pool.ids) (
      create_from-Tried w (suc (count s.pool.ids)) s.next_device_id s.pool.ids
        (omega (arith, above-count s.next_device_id s.pool.ids)))
