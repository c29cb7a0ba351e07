-- ===== src/Activity/Shows.antt =====
-- app/activity.py: the feed is consistent, and what it shows.
use cortex_cloud_api.Prelude.{
  ℕ, ◌+◌, ◌≤◌, ◌≡◌, refl, inl, inr, Bool, Bool-cases, select, List, [], ◌∷◌, length, leb, leb→le,
  leb-false, arith,
}
use cortex_cloud_api.Effects.{Result, ok, raised}
use cortex_cloud_api.Activity.{
  Chain, Shown, Feed, verified, insert, newest_first, volume, feed_or_fallback, transfers, activity,
}

abbrev pub IsBelow : ℕ → List Shown → Type 0
IsBelow ts [] = Unit
IsBelow ts (t ∷ rest) = t.ts ≤ ts

-- Each is at least as new as the one behind it.
abbrev pub IsNewestFirst : List Shown → Type 0
IsNewestFirst [] = Unit
IsNewestFirst (t ∷ rest) = IsBelow t.ts rest × IsNewestFirst rest

insert-IsBelow :
    (bound : ℕ) (t : Shown) (rest : List Shown)
    → t.ts ≤ bound
    → IsBelow bound rest
    → IsBelow bound (insert t rest)
insert-IsBelow bound t [] h k = h
insert-IsBelow bound t (u ∷ rest) h k = elim (Bool-cases (leb u.ts t.ts)) [
  | inl e ↦ rw e h
  | inr e ↦ rw e k
]

insert-IsNewestFirst :
    (t : Shown) (rest : List Shown) → IsNewestFirst rest → IsNewestFirst (insert t rest)
insert-IsNewestFirst t [] h = (tt, tt)
insert-IsNewestFirst t (u ∷ rest) (b, h) = elim (Bool-cases (leb u.ts t.ts)) [
  | inl e ↦ rw e (leb→le u.ts t.ts e, (b, h))
  | inr e ↦ rw e (
    insert-IsBelow u.ts t rest (omega (arith, leb-false u.ts t.ts e)) b,
    insert-IsNewestFirst t rest h,
  )
]

newest_first-IsNewestFirst : (ts : List Shown) → IsNewestFirst (newest_first ts)
newest_first-IsNewestFirst [] = tt
newest_first-IsNewestFirst (t ∷ rest) =
    insert-IsNewestFirst t (newest_first rest) (newest_first-IsNewestFirst rest)

length-insert : (t : Shown) (rest : List Shown) → length (insert t rest) ≡ 1 + length rest
length-insert t [] = refl
length-insert t (u ∷ rest) = ground (arith, length-insert t rest)

volume-insert :
    (t : Shown) (rest : List Shown) → volume (insert t rest) ≡ t.amount_usdc + volume rest
volume-insert t [] = refl
volume-insert t (u ∷ rest) = ground (arith, volume-insert t rest)

length-newest_first : (ts : List Shown) → length (newest_first ts) ≡ length ts
length-newest_first [] = refl
length-newest_first (t ∷ rest) =
    omega (arith, length-insert t (newest_first rest), length-newest_first rest)

-- Sorting keeps how many there are of each kind.
select-insert :
    (p : Shown → Bool) (t : Shown) (rest : List Shown)
    → length (select p (insert t rest)) ≡ length (select p (t ∷ rest))
select-insert p t [] = refl
select-insert p t (u ∷ rest) = ground (arith, select-insert p t rest)

select-newest_first :
    (p : Shown → Bool) (ts : List Shown)
    → length (select p (newest_first ts)) ≡ length (select p ts)
select-newest_first p [] = refl
select-newest_first p (t ∷ rest) =
    ground (arith, select-insert p t (newest_first rest), select-newest_first p rest)

volume-newest_first : (ts : List Shown) → volume (newest_first ts) ≡ volume ts
volume-newest_first [] = refl
volume-newest_first (t ∷ rest) =
    omega (arith, volume-insert t (newest_first rest), volume-newest_first rest)

-- The transactions that a feed stands for: those that the chain gave, or the built-in one where the
-- reading failed or gave none.
abbrev pub found_or_built_in : Result (List Shown) → List Shown
found_or_built_in (raised e) = verified ∷ []
found_or_built_in (ok []) = verified ∷ []
found_or_built_in (ok (t ∷ rest)) = t ∷ rest

abbrev pub Describes : (Shown → Bool) → List Shown → Feed → Type 0
Describes p ts f =
    (f.count ≡ length ts)
    × (f.volume_usdc ≡ volume ts)
    × (length (select p f.txns) ≡ length (select p ts))
    × IsNewestFirst f.txns
    × (1 ≤ f.count)

feed-Describes :
    (p : Shown → Bool) (r : Result (List Shown))
    → Describes p (found_or_built_in r) (feed_or_fallback r)
feed-Describes p (raised e) = (refl, refl, refl, (tt, tt), omega arith)
feed-Describes p (ok []) = (refl, refl, refl, (tt, tt), omega arith)
feed-Describes p (ok (t ∷ rest)) =
    let n = length-newest_first (t ∷ rest) in
    (
      n,
      volume-newest_first (t ∷ rest),
      select-newest_first p (t ∷ rest),
      newest_first-IsNewestFirst (t ∷ rest),
      omega (arith, n),
    )

-- Whatever the chain answers, the feed's count and volume are those of the transfers that were read,
-- or of the built-in settlement where the reading failed or found none; of each kind it shows as many
-- as there are, the newest first; and its count is never nought.
pub activity-Describes :
    (p : Shown → Bool) (chain : Chain) (now : ℕ)
    → Describes p (found_or_built_in (transfers chain now)) (activity chain now)
unfolding activity
activity-Describes p chain now = feed-Describes p (transfers chain now)
