-- ===== src/Engine/Delayed.antt =====
-- The wait before steps are tried again.
use asterim.Prelude.{ℕ, suc, ◌+◌, ◌≤◌, ◌<◌, ◌≡◌, ◌⊎◌, String, Bool, true, false, none, some}
use asterim.Engine.Types.{World}

-- How a wait that starts at a tick ends: within so many slices, with `true` at the deadline or
-- later and no cancellation recorded, or with `false` and one.
abbrev pub WaitEnds : World → ℕ → ℕ → ℕ → Bool × ℕ → Type 0
WaitEnds w deadline tick slices r =
    (tick ≤ r.1)
    × (r.1 ≤ tick + slices)
    × (((r.0 ≡ true) × (w.cancel_reason r.1 ≡ none) × (deadline ≤ w.now r.1))
        ⊎ ((r.0 ≡ false) × (why : String) × (w.cancel_reason r.1 ≡ some why)))

-- Each of the next slices takes a millisecond or more.
abbrev pub Advances : World → ℕ → ℕ → Type 0
Advances w tick slices = (k : ℕ) → k < slices → w.now (tick + k) < w.now (suc (tick + k))
