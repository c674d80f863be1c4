-- ===== src/Relay/Limiter.antt =====
-- `SlidingWindowLimiter` of apps/relay/src/relayServer.ts. A hit counts while `t > now - windowMs`,
-- which is written as a sum.
use asterim.Prelude.{
  ℕ, ◌+◌, String, Bool, true, false, List, [], ◌∷◌, ◌++◌, if◌then◌else◌, ltb, leb, ◌==◌, length,
  keep, get_or, Map, get, put, delete,
}

pub record Limiter : Type 0 where
  pub limit : ℕ
  pub window_ms : ℕ

abbrev pub in_window : Limiter → ℕ → ℕ → Bool
in_window l now t = ltb now (t + l.window_ms)

-- `allow` for one key, on the hits recorded for it.
unfoldable pub allow_hits : Limiter → ℕ → List ℕ → List ℕ × Bool
allow_hits l now hits =
    let recent = keep (in_window l now) hits in
    if leb l.limit (length recent) then (recent, false) else (recent ++ now ∷ [], true)

unfoldable pub allow : Limiter → ℕ → String → Map (List ℕ) → Map (List ℕ) × Bool
unfolding allow_hits
allow l now key hits =
    let (recent, ok) = allow_hits l now (get_or (get key hits) []) in (put key recent hits, ok)

-- `prune`, over the entries that were there when it began.
abbrev pub prune_entry : Limiter → ℕ → String × List ℕ → Map (List ℕ) → Map (List ℕ)
prune_entry l now (key, times) hits =
    let recent = keep (in_window l now) times in
    if length recent == 0 then delete key hits else put key recent hits

unfoldable pub prune_from : Limiter → ℕ → Map (List ℕ) → Map (List ℕ) → Map (List ℕ)
prune_from l now [] hits = hits
prune_from l now (e ∷ es) hits = prune_from l now es (prune_entry l now e hits)

unfoldable pub prune : Limiter → ℕ → Map (List ℕ) → Map (List ℕ)
unfolding prune_from
prune l now hits = prune_from l now hits hits
