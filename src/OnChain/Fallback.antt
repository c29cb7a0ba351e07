-- ===== src/OnChain/Fallback.antt =====
-- Which endpoint answers, and how wide an encoded address is.
use cortex_cloud_api.Prelude.{
  ℕ, zero, suc, ◌+◌, ◌-◌, ◌≤◌, ◌≡◌, refl, ap, inl, inr, String, Option, none, some, List, [], ◌∷◌,
  ◌++◌, length, All, arith, Option-cases,
}
use cortex_cloud_api.Prelude.Text.{codes, lower}
use cortex_cloud_api.Json.{Json}
use cortex_cloud_api.Usage.Uuid.{remove_from}
use cortex_cloud_api.X402.{Reply}
use cortex_cloud_api.OnChain.{
  rpc_endpoints, zeros, addr, answer_of, try_next, call_from, payload_of, rpc_call,
}

module _ (post : String → Json → Reply) (payload : Json) where
  abbrev pub Silent : String → Type 0
  Silent url = answer_of (post url payload) ≡ none

  -- The first endpoint that answers is asked after those before it, and no later one is.
  pub data IsFirst (urls : List String) (res : Option Json × List String) : Type 0 where
    found :
        (before after : List String) (url : String) (j : Json)
        → urls ≡ before ++ url ∷ after
        → All Silent before
        → answer_of (post url payload) ≡ some j
        → res ≡ (some j, before ++ url ∷ [])
        → IsFirst urls res
    all_silent : All Silent urls → res ≡ (none, urls) → IsFirst urls res

  later :
      (url : String) (urls : List String) (res : Option Json × List String)
      → Silent url
      → IsFirst urls res
      → IsFirst (url ∷ urls) (res.0, url ∷ res.1)
  later url urls res s (found before after u j e h a r) =
      found (url ∷ before) after u j (ap (λ us. url ∷ us) e) (s, h) a
        (ap (λ (r : Option Json × List String). (r.0, url ∷ r.1)) r)
  later url urls res s (all_silent h r) =
      all_silent (s, h) (ap (λ (r : Option Json × List String). (r.0, url ∷ r.1)) r)

  call_from-IsFirst : (urls : List String) → IsFirst urls (call_from post payload urls)
  unfolding call_from
  call_from-IsFirst [] = all_silent tt refl
  call_from-IsFirst (url ∷ urls) = elim (Option-cases (answer_of (post url payload))) [
    | inl silent ↦
        rw (silent, try_next)
          (later url urls (call_from post payload urls) silent (call_from-IsFirst urls))
    | inr (j, e) ↦ rw (e, try_next) (found [] urls url j refl tt e refl)
  ]

-- A call asks the public endpoints in their order, up to the first that answers with status 200 and a
-- result, whose answer it returns; without one it has asked them all and returns nothing.
pub rpc_call-IsFirst :
    (post : String → Json → Reply) (method : String) (params : List Json)
    → IsFirst post (payload_of method params) rpc_endpoints (rpc_call post method params)
unfolding rpc_call
rpc_call-IsFirst post method params =
    call_from-IsFirst post (payload_of method params) rpc_endpoints

length-zeros : (n : ℕ) (s : List ℕ) → length (zeros n s) ≡ n + length s
length-zeros zero s = omega arith
length-zeros (suc n) s = omega (arith, length-zeros n s)

-- An address of at most 64 digits is encoded in exactly 64.
pub length-addr :
    (a : String) → length (remove_from (codes "0x") 0 (lower a)) ≤ 64 → length (addr a) ≡ 64
unfolding addr
length-addr a h = grind (
  arith,
  length-zeros (64 - length (remove_from (codes "0x") 0 (lower a)))
      (remove_from (codes "0x") 0 (lower a)),
  h,
)
