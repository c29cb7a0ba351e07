-- ===== src/Routing/Settings.antt =====
-- A provider whose key is not set.
use mathlib.Core.Path.{fun_ext}
use cortex_cloud_api.Prelude.{ℕ, ◌+◌, ◌≡◌, refl, ap, ◌∙◌, sym, subst, arith, String, none, some}
use cortex_cloud_api.Effects.{raised, ok, Exec, ◌>>=◌, raise, or_raise, bind-ok, bind-raised}
use cortex_cloud_api.Database.{ModelRegistry, World}
use cortex_cloud_api.Routing.{
  Provider, ProviderContext, ProviderKeys, Answer, provider_map, truthy, unsupported, unconfigured,
  get_provider, get_provider_api_key, retry_from, execute_with_retry,
}
use cortex_cloud_api.Routing.Routes.{call_provider, execute_request}

module _ (keys : ProviderKeys) {Req R : Type 0}
    (answer : ℕ → Provider → ProviderContext → Req → Answer R) (correlation_id : String)
    (request : Req) (model : ModelRegistry) (provider : Provider)
    (known : provider_map model.provider ≡ some provider)
    (unset : truthy (keys provider) ≡ none) where
  abbrev attempt : Exec World R
  attempt = execute_request keys answer correlation_id request model

  provider_found : (w : World) → get_provider model.provider w ≡ (ok provider, w)
  unfolding get_provider
  provider_found w = ap (λ o. or_raise o (unsupported model.provider) w) known

  key_missing :
      (w : World)
      → get_provider_api_key keys model.provider w ≡ (raised (unconfigured model.provider), w)
  unfolding get_provider_api_key
  key_missing w =
      ap
        (λ o.
          (elim o as (λ x. Exec World String) [
            | none ↦ raise (unconfigured model.provider)
            | some p ↦ or_raise (truthy (keys p)) (unconfigured model.provider)
          ])
            w)
        known
      ∙ ap (λ o. or_raise o (unconfigured model.provider) w) unset

  abbrev calling : Provider → String → Exec World R
  calling p api_key = call_provider λ n.
      answer n p
        (record {
          api_key = api_key;
          provider_model_name = model.provider_model_name;
          correlation_id = correlation_id;
        })
        request

  abbrev with_provider : Provider → Exec World R
  with_provider p = get_provider_api_key keys model.provider >>= calling p

  attempt_raises : (w : World) → attempt w ≡ (raised (unconfigured model.provider), w)
  unfolding execute_request
  attempt_raises w =
      bind-ok (get_provider model.provider) with_provider w (provider_found w)
      ∙ bind-raised (get_provider_api_key keys model.provider) (calling provider) w (key_missing w)

  -- A model whose provider has no key on the gateway fails with the error about the key, but only
  -- after three attempts and a second and a half of sleep, without a call of the provider.
  pub unconfigured_retried :
      (w : World)
      → let (r, v) = execute_with_retry attempt w in
        (r ≡ raised (unconfigured model.provider))
        × (v.slept ≡ w.slept + 500 + 1000)
        × (v.calls ≡ w.calls)
  unfolding execute_with_retry retry_from
  unconfigured_retried w = subst Slept (sym (fun_ext attempt_raises)) (refl, omega arith, refl)
    where
      Slept : Exec World R → Type 0
      Slept func =
          let (r, v) = execute_with_retry func w in
          (r ≡ raised (unconfigured model.provider))
          × (v.slept ≡ w.slept + 500 + 1000)
          × (v.calls ≡ w.calls)
