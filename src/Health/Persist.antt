-- ===== src/Health/Persist.antt =====
-- internal/health/persist.go: the durable copy of the breaker. The store is a parameter: what a
-- write leaves behind is a list of entries, and each write may fail.
pub mod Dirty
pub mod Restart
pub mod Keyed
use darkrouter.Base.{ℕ, ◌≡◌, Bool, true, false, List, [], ◌∷◌, Option, none, some, if◌then◌else◌}
use darkrouter.Health.Types.{Entry, Breaker}
use darkrouter.Health.Breaker.{rehydrate, snapshot, take_dirty}

-- What `LoadHealth` answers: the entries, or an error.
unfoldable pub restore : Breaker → Option (List Entry) → ℕ → Breaker × Bool
restore b none now = (b, false)
restore b (some entries) now = (rehydrate b entries now, true)

-- One turn of the loop of `Run` at a tick: the breaker, and the entries that `SaveHealth` is
-- called with. Whether the write succeeds changes neither; a failure is logged.
unfoldable pub tick : Breaker → Breaker × Option (List Entry)
tick b = let (b', dirty) = take_dirty b in if dirty then (b', some (snapshot b')) else (b', none)

-- The turn that ends the loop: an unconditional flush.
unfoldable pub shutdown : Breaker → List Entry
shutdown b = snapshot b
