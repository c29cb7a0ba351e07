-- ===== src/RateLimit/Recovery.antt =====
-- The sliding window: a key that was limited is admitted again.
use cortex_cloud_api.Prelude.{
  ℕ, ◌+◌, ◌≤◌, ◌<◌, ◌≡◌, refl, ap, sym, ◌∙◌, false, List, [], ◌∷◌, ◌++◌, length, select, arith, leb,
  ltb, All, All-append,
}
use cortex_cloud_api.Edge.Redis.{Hit, empty_set}
use cortex_cloud_api.RateLimit.Window.{limited_hits, limited_from, IsRun, limited_hits_lem}

module _ (limit window : ℕ) (hit : Hit) where
  -- All are at least a window old at the time of `hit`.
  abbrev pub AreOld : List Hit → Type 0
  AreOld = All (λ h. h.time + window ≤ hit.time)

  select-AreOld :
      (hits : List Hit) → AreOld hits → select (λ h. ltb hit.time (h.time + window)) hits ≡ []
  select-AreOld [] old = refl
  select-AreOld (h ∷ hits) (o, old) = ground (arith, select-AreOld hits old)

  admitted :
      (hits : List Hit)
      → 0 < limit
      → AreOld hits
      → leb limit (length (select (λ h. ltb hit.time (h.time + window)) hits)) ≡ false
  admitted hits l old = rw (select-AreOld hits old) (ground (arith, l))

  limited_from-append :
      (earlier hits : List Hit)
      → 0 < limit
      → AreOld earlier
      → AreOld hits
      → limited_from limit window earlier (hits ++ hit ∷ [])
        ≡ limited_from limit window earlier hits ++ false ∷ []
  limited_from-append earlier [] l old _ = ap (λ b. b ∷ []) (admitted earlier l old)
  limited_from-append earlier (h ∷ hits) l old (o, olds) =
      ap (λ bs. leb limit (length (select (λ e. ltb h.time (e.time + window)) earlier)) ∷ bs)
        (limited_from-append (earlier ++ h ∷ []) hits l
          (All-append (λ e. e.time + window ≤ hit.time) earlier (h ∷ []) old (o, tt)) olds)

IsRun-init :
    (time : ℕ) (earlier hits : List Hit) (hit : Hit)
    → IsRun time earlier (hits ++ hit ∷ [])
    → IsRun time earlier hits
IsRun-init time earlier [] hit run = tt
IsRun-init time earlier (h ∷ hits) hit (later, fresh, run) =
    (later, fresh, IsRun-init h.time (earlier ++ h ∷ []) hits hit run)

-- If the limit and the window are not nought, and the hits of a key come in the order of their times, no
-- two of them the same, then a hit that comes a window after all the others is let through, whichever
-- of those were limited.
pub limited_hits-recovers :
    (limit window : ℕ) (hits : List Hit) (hit : Hit)
    → 0 < limit
    → 0 < window
    → IsRun 0 [] (hits ++ hit ∷ [])
    → AreOld limit window hit hits
    → limited_hits limit window empty_set (hits ++ hit ∷ [])
      ≡ limited_hits limit window empty_set hits ++ false ∷ []
limited_hits-recovers limit window hits hit l w run old =
    limited_hits_lem limit window (hits ++ hit ∷ []) w run
    ∙ limited_from-append limit window hit [] hits l tt old
    ∙ ap (λ bs. bs ++ false ∷ [])
        (sym (limited_hits_lem limit window hits w (IsRun-init 0 [] hits hit run)))
