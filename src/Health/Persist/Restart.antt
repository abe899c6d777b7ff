-- ===== src/Health/Persist/Restart.antt =====
-- A restart: what `Rehydrate` makes of a snapshot, and that the maps stay maps.
use darkrouter.Base.{
  ℕ, ◌≡◌, refl, Bool, true, false, not, ◌&&◌, ◌≤◌, [], ◌∷◌, Option, none, some, ℤ, map, Map, lookup,
  insert, lookup-insert, Distinct, ltb, ◌==◌, arith, if◌then◌else◌, ◌∙◌,
}
use darkrouter.Health.Types.{Key, key_Eq, key_eq, key_eq_iff, State, zero_state, Breaker}
use darkrouter.Health.Breaker.{entry_of, snapshot, rehydrated, rehydrate, new}
use darkrouter.Health.Availability.{is_open}

-- What a restart at `now` makes of an entry.
abbrev pub restarted : State → ℕ → State
restarted st now = record zero_state {
  cooling_until =
      if not (st.cooling_until == 0) && ltb now st.cooling_until then st.cooling_until else 0;
  backoff_level = st.backoff_level;
  consecutive_failures = st.consecutive_failures;
}

abbrev or_kept : Option State → Option State → ℕ → Option State
or_kept none o now = o
or_kept (some st) o now = some (restarted st now)

lookup-rehydrate :
    (b : Breaker) (m : Map Key State) (k : Key) (now : ℕ)
    → Distinct m
    → lookup k (rehydrate b (map entry_of m) now).m ≡ or_kept (lookup k m) (lookup k b.m) now
unfolding rehydrate rehydrated entry_of lookup
lookup-rehydrate b [] k now d = refl
lookup-rehydrate b ((j, st) ∷ m) k now d =
    lookup-rehydrate (record b { m = insert j (rehydrated (entry_of (j, st)) now) b.m }) m k now d.1
    ∙ step
  where
    absent : key_eq j k ≡ true → lookup k m ≡ none
    absent e = rw ((key_eq_iff j k).0 e) at d.0

    pick :
        (t : Bool)
        → (t ≡ true → lookup k m ≡ none)
        → or_kept
            (lookup k m)
            (if t then some (rehydrated (entry_of (j, st)) now) else lookup k b.m)
            now
          ≡ or_kept (if t then some st else lookup k m) (lookup k b.m) now
    pick true h = rw (h refl)
    pick false h = refl

    step :
        or_kept (lookup k m) (lookup k (insert j (rehydrated (entry_of (j, st)) now) b.m)) now
        ≡ or_kept (if key_eq j k then some st else lookup k m) (lookup k b.m) now
    step =
        rw (lookup-insert j k (rehydrated (entry_of (j, st)) now) b.m)
          (pick (key_eq j k) (λ e. absent e))

abbrev pub after_restart : Option State → ℕ → Option State
after_restart none now = none
after_restart (some st) now = some (restarted st now)

-- A breaker made anew and rehydrated from a snapshot has, under each key, the ladder level and
-- the count of failures of the old one, its cooldown where that has not passed, and no probe.
pub lookup-rehydrate-snapshot :
    (b : Breaker) (trip_after max : ℤ) (k : Key) (now : ℕ)
    → Distinct b.m
    → lookup k (rehydrate (new trip_after max) (snapshot b) now).m
      ≡ after_restart (lookup k b.m) now
unfolding snapshot new lookup
lookup-rehydrate-snapshot b trip_after max k now d =
    lookup-rehydrate (new trip_after max) b.m k now d ∙ none_kept (lookup k b.m)
  where
    none_kept : (o : Option State) → or_kept o none now ≡ after_restart o now
    none_kept none = refl
    none_kept (some st) = refl

restarted-is_open :
    (o : Option State) (now at : ℕ) → now ≤ at → is_open (after_restart o now) at ≡ is_open o at
restarted-is_open none now at h = refl
restarted-is_open (some st) now at h = ground arith

-- A restart changes no routing decision on cooldowns: from that moment on each entry is in its
-- cooldown exactly when it was before.
pub restart-is_open :
    (b : Breaker) (trip_after max : ℤ) (k : Key) (now at : ℕ)
    → Distinct b.m
    → now ≤ at
    → is_open (lookup k (rehydrate (new trip_after max) (snapshot b) now).m) at
      ≡ is_open (lookup k b.m) at
restart-is_open b trip_after max k now at d h =
    rw (lookup-rehydrate-snapshot b trip_after max k now d)
      (restarted-is_open (lookup k b.m) now at h)
