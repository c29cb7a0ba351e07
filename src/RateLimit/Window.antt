-- ===== src/RateLimit/Window.antt =====
-- The sliding window: what the sorted set of a key keeps, and which requests it lets pass.
use cortex_cloud_api.Prelude.{
  ℕ, ◌+◌, ◌≤◌, ◌<◌, ◌≡◌, refl, ap, ◌∙◌, sym, Bool, false, not, List, [], ◌∷◌, ◌++◌, length, select,
  any, arith, ◌⊎◌, leb, ltb, All, select-append, Bool-cases, inl, inr, All-append,
}
use cortex_cloud_api.Edge.Redis.{Hit, SortedSet, empty_set, live_hits, purge, add_hit, same_hit}
use cortex_cloud_api.RateLimit.{hit_set}

module _ (limit window : ℕ) where
  -- The hits of a key one after another: which of them are limited.
  unfoldable pub limited_hits : SortedSet → List Hit → List Bool
  limited_hits z [] = []
  limited_hits z (hit ∷ hits) =
      let (limited, z') = hit_set limit window hit z in limited ∷ limited_hits z' hits

  -- The reference: a hit is limited when, of all the earlier hits, limited themselves or not, at
  -- least `limit` are less than a window old.
  abbrev pub limited_from : List Hit → List Hit → List Bool
  limited_from earlier [] = []
  limited_from earlier (hit ∷ hits) =
      leb limit (length (select (λ h. ltb hit.time (h.time + window)) earlier))
      ∷ limited_from (earlier ++ hit ∷ []) hits

-- The hits come in the order of their times, from `time` on, and no two are the same.
abbrev pub IsRun : ℕ → List Hit → List Hit → Type 0
IsRun time earlier [] = Unit
IsRun time earlier (hit ∷ hits) =
    (time ≤ hit.time)
    × (any (λ h. same_hit h hit) earlier ≡ false)
    × IsRun hit.time (earlier ++ hit ∷ []) hits

abbrev Before : ℕ → List Hit → Type 0
Before time = All (λ h. h.time ≤ time)

Before-weaken : (a b : ℕ) (hits : List Hit) → a ≤ b → Before a hits → Before b hits
Before-weaken a b [] h k = tt
Before-weaken a b (x ∷ hits) h (k, ks) = (omega (arith, h, k), Before-weaken a b hits h ks)

add_hit-fresh :
    (hit : Hit) (hits : List Hit)
    → any (λ h. same_hit h hit) hits ≡ false
    → select (λ h. not (same_hit h hit)) hits ≡ hits
add_hit-fresh hit [] e = refl
add_hit-fresh hit (h ∷ hits) e = ground (arith, add_hit-fresh hit hits)

any-purge :
    (hit : Hit) (window now : ℕ) (hits : List Hit)
    → any (λ h. same_hit h hit) hits ≡ false
    → any (λ h. same_hit h hit) (purge window now hits) ≡ false
any-purge hit window now [] e = refl
any-purge hit window now (h ∷ hits) e = ground (arith, any-purge hit window now hits)

purge-purge :
    (window a b : ℕ) (hits : List Hit)
    → a ≤ b
    → purge window b (purge window a hits) ≡ purge window b hits
purge-purge window a b [] h = refl
purge-purge window a b (x ∷ hits) h = ground (arith, purge-purge window a b hits h)

purge-old :
    (window a b : ℕ) (hits : List Hit) → Before a hits → a + window ≤ b → purge window b hits ≡ []
purge-old window a b [] h k = refl
purge-old window a b (x ∷ hits) (h, hs) k = ground (arith, purge-old window a b hits hs k)

-- What the set holds after the hit at `last`: the hits less than a window old, until they all are.
record Keeps (window last : ℕ) (earlier : List Hit) (z : SortedSet) : Type 0 where
  kept : z.hits ≡ purge window last earlier
  before : Before last earlier
  lives : (earlier ≡ []) ⊎ (last + window ≤ z.expires_at)

purge-expired :
    (window last now : ℕ) (earlier : List Hit) (z : SortedSet)
    → Keeps window last earlier z
    → z.expires_at ≤ now
    → purge window now earlier ≡ []
purge-expired window last now earlier z k h = elim k.lives [
  | inl none ↦ ap (purge window now) none
  | inr late ↦ purge-old window last now earlier k.before (omega (arith, late, h))
]

purge-live :
    (window last now : ℕ) (earlier : List Hit) (z : SortedSet)
    → Keeps window last earlier z
    → last ≤ now
    → purge window now (live_hits z now) ≡ purge window now earlier
purge-live window last now earlier z k h = elim (Bool-cases (leb z.expires_at now)) [
  | inl gone ↦ rw gone (sym (purge-expired window last now earlier z k (ground arith)))
  | inr alive ↦ rw alive (ap (purge window now) k.kept ∙ purge-purge window last now earlier h)
]

module _ (limit window : ℕ) (hit : Hit) (earlier : List Hit) (z : SortedSet) (last : ℕ)
    (keeps : Keeps window last earlier z) (later : last ≤ hit.time)
    (fresh : any (λ h. same_hit h hit) earlier ≡ false) where
  hit_set-limited :
      (hit_set limit window hit z).0
      ≡ leb limit (length (select (λ h. ltb hit.time (h.time + window)) earlier))
  unfolding hit_set
  hit_set-limited =
      ap (λ hits. leb limit (length hits)) (purge-live window last hit.time earlier z keeps later)

  hit_set-hits : (hit_set limit window hit z).1.hits ≡ purge window hit.time earlier ++ hit ∷ []
  unfolding hit_set
  hit_set-hits =
      ap (λ hits. add_hit hit hits) (purge-live window last hit.time earlier z keeps later)
      ∙ ap (λ hits. hits ++ hit ∷ [])
          (add_hit-fresh hit (purge window hit.time earlier)
            (any-purge hit window hit.time earlier fresh))

  hit_set-Keeps :
      0 < window → Keeps window hit.time (earlier ++ hit ∷ []) (hit_set limit window hit z).1
  unfolding hit_set
  hit_set-Keeps w = record {
    kept = hit_set-hits ∙ sym (purge_own w);
    before =
        All-append (λ h. h.time ≤ hit.time) earlier (hit ∷ [])
          (Before-weaken last hit.time earlier later keeps.before) (omega arith, tt);
    lives = inr (omega arith);
  }
    where
      purge_own :
          0 < window
          → purge window hit.time (earlier ++ hit ∷ []) ≡ purge window hit.time earlier ++ hit ∷ []
      purge_own w =
          select-append (λ h. ltb hit.time (h.time + window)) earlier (hit ∷ [])
          ∙ ap (λ hits. purge window hit.time earlier ++ hits) (own w)
        where
          own : 0 < window → purge window hit.time (hit ∷ []) ≡ hit ∷ []
          own w = ground arith

limited_hits-from :
    (limit window last : ℕ) (earlier hits : List Hit) (z : SortedSet)
    → 0 < window
    → Keeps window last earlier z
    → IsRun last earlier hits
    → limited_hits limit window z hits ≡ limited_from limit window earlier hits
unfolding limited_hits
limited_hits-from limit window last earlier [] z w k r = refl
limited_hits-from limit window last earlier (hit ∷ hits) z w k (later, fresh, run) = grind (
  arith,
  hit_set-limited limit window hit earlier z last k later fresh,
  limited_hits-from limit window hit.time (earlier ++ hit ∷ []) hits (hit_set limit window hit z).1
      w (hit_set-Keeps limit window hit earlier z last k later fresh w) run,
)

-- For a window that is not empty, and hits of one key in the order of their times, no two of them
-- the same: the sorted set, with its removals and its expiry, limits exactly the hits that at least
-- `limit` earlier hits precede by less than a window, whether those were limited or not.
pub limited_hits_lem :
    (limit window : ℕ) (hits : List Hit)
    → 0 < window
    → IsRun 0 [] hits
    → limited_hits limit window empty_set hits ≡ limited_from limit window [] hits
limited_hits_lem limit window hits w run =
    limited_hits-from limit window 0 [] hits empty_set w
      (record { kept = refl; before = tt; lives = inl refl }) run
