-- ===== src/Images/TagStore/Pools.antt =====
-- The pulls and pushes in progress: poolAdd and poolRemove of graph/tags.go.
use docker.Common.{
  ℕ, ◌+◌, ◌≡◌, Bool, true, false, ◌&&◌, Option, none, some, inl, inr, List, Text, codes, arith,
  Bool-cases, Option-cases, ◌==◌, ==_iff, if◌then◌else◌, text_eq, nat_eq,
}
use docker.Common.Maps.{lookup, insert, erase, lookup-insert, lookup-erase}
use docker.Images.TagStore.{TagStore}

-- What poolAdd returns: the new channel, the one of the operation in progress, or neither.
pub data PoolAnswer : Type 0 where
  started : ℕ → PoolAnswer
  pull_in_progress push_in_progress : ℕ → PoolAnswer
  unknown_pool_type : PoolAnswer

unfoldable pub pool_put : Text → Text → TagStore → TagStore × PoolAnswer
unfolding insert
pool_put kind key s =
    let c = s.next_channel in
    if kind == codes "pull"
    then (record s { pulling_pool = insert key c s.pulling_pool; next_channel = c + 1 }, started c)
    else (if kind == codes "push"
        then (
          record s { pushing_pool = insert key c s.pushing_pool; next_channel = c + 1 },
          started c,
        )
        else (record s { next_channel = c + 1 }, unknown_pool_type))

unfoldable pub pool_add : Text → Text → TagStore → TagStore × PoolAnswer
unfolding pool_put
pool_add kind key s = elim (lookup key s.pulling_pool) [
  | some c ↦ (s, pull_in_progress c)
  | none ↦ elim (lookup key s.pushing_pool) [
    | some c ↦ (s, push_in_progress c)
    | none ↦ pool_put kind key s
  ]
]

-- The channel that is closed, if any, and whether the kind is known.
unfoldable pub pool_remove : Text → Text → TagStore → TagStore × Option ℕ × Bool
unfolding erase
pool_remove kind key s =
    if kind == codes "pull"
    then (record s { pulling_pool = erase key s.pulling_pool }, lookup key s.pulling_pool, true)
    else (if kind == codes "push"
        then (record s { pushing_pool = erase key s.pushing_pool }, lookup key s.pushing_pool, true)
        else (s, none, false))

-- The daemon's jobs, one after the other under the lock.
pub data PoolStep (s : TagStore) : TagStore → Type 0 where
  adds : (kind key : Text) → PoolStep s (pool_add kind key s).0
  removes : (kind key : Text) → PoolStep s (pool_remove kind key s).0

pub data Reaches (s : TagStore) : TagStore → Type 0 where
  here : Reaches s s
  next : {t u : TagStore} → Reaches s t → PoolStep t u → Reaches s u

abbrev pub in_pool : Text → List (Text × ℕ) → Bool
in_pool key pool = elim (lookup key pool) [ none ↦ false | some c ↦ true ]

-- A key is not in both pools. A pull and a push of one image may still have different keys.
abbrev pub IsExclusive : Text → TagStore → Type 0
IsExclusive key s = (in_pool key s.pulling_pool && in_pool key s.pushing_pool) ≡ false

pool_put-IsExclusive :
    (kind key other : Text) (s : TagStore)
    → in_pool key s.pulling_pool ≡ false
    → in_pool key s.pushing_pool ≡ false
    → IsExclusive other s
    → IsExclusive other (pool_put kind key s).0
unfolding pool_put
pool_put-IsExclusive kind key other s p q x = elim (Bool-cases (kind == codes "pull")) [
  | inl pull ↦
      rw (pull, pool_put)
        (ground (arith, lookup-insert key other s.next_channel s.pulling_pool, ==_iff key other))
  | inr n ↦ elim (Bool-cases (kind == codes "push")) [
    | inl push ↦
        rw (n, push, pool_put)
          (ground (arith, lookup-insert key other s.next_channel s.pushing_pool, ==_iff key other))
    | inr n' ↦ rw (n, n', pool_put) x
  ]
]

pool_add-IsExclusive :
    (kind key other : Text) (s : TagStore)
    → IsExclusive other s
    → IsExclusive other (pool_add kind key s).0
unfolding pool_add
pool_add-IsExclusive kind key other s x = elim (Option-cases (lookup key s.pulling_pool)) [
  | inr (c, e) ↦ rw (e, pool_add) x
  | inl e ↦ elim (Option-cases (lookup key s.pushing_pool)) [
    | inr (c, e') ↦ rw (e, e', pool_add) x
    | inl e' ↦
        rw (e, e', pool_add)
          (pool_put-IsExclusive kind key other s (ground (arith, e)) (ground (arith, e')) x)
  ]
]

pool_remove-IsExclusive :
    (kind key other : Text) (s : TagStore)
    → IsExclusive other s
    → IsExclusive other (pool_remove kind key s).0
unfolding pool_remove
pool_remove-IsExclusive kind key other s x = elim (Bool-cases (kind == codes "pull")) [
  | inl pull ↦
      rw (pull, pool_remove)
        (ground (arith, lookup-erase key other s.pulling_pool, ==_iff key other))
  | inr n ↦ elim (Bool-cases (kind == codes "push")) [
    | inl push ↦
        rw (n, push, pool_remove)
          (ground (arith, lookup-erase key other s.pushing_pool, ==_iff key other))
    | inr n' ↦ rw (n, n', pool_remove) x
  ]
]

PoolStep-IsExclusive :
    (key : Text) {s t : TagStore} → PoolStep s t → IsExclusive key s → IsExclusive key t
PoolStep-IsExclusive key {s} (adds kind k) x = pool_add-IsExclusive kind k key s x
PoolStep-IsExclusive key {s} (removes kind k) x = pool_remove-IsExclusive kind k key s x

-- For each key: from a store where it is not in the pool of pulls and in that of pushes at once, no
-- interleaving of calls of poolAdd and poolRemove, of whatever kind and for whatever keys, reaches one
-- where it is.
pub Reaches-IsExclusive :
    (key : Text) {s t : TagStore} → Reaches s t → IsExclusive key s → IsExclusive key t
Reaches-IsExclusive key here x = x
Reaches-IsExclusive key (next r st) x = PoolStep-IsExclusive key st (Reaches-IsExclusive key r x)
