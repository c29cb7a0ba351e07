-- ===== src/Books/Revenue.antt =====
-- Sound books over every sequence of requests, and the totals that the administrator sees.
use cortex_cloud_api.Prelude.{
  ℕ, false, ◌≤◌, ap, All, not, ◌⊎◌, inl, inr, ◌≡◌, refl, ◌∙◌, sym, String, List,
}
use cortex_cloud_api.Prelude.Int.{ℤ, ◌+ℤ◌, is_nonzero}
use cortex_cloud_api.Effects.{Result, ok, raised, lift, pure, ◌>>=◌}
use cortex_cloud_api.Database.{deposit, usage_charge, World}
use cortex_cloud_api.Schemas.{EmbeddingsRequest, EmbeddingsResponse}
use cortex_cloud_api.Routing.{Provider, ProviderContext, Answer}
use cortex_cloud_api.Admin.{
  Revenue, admin_view_revenue, sum_of, or_zero, add_sums, revenue_with, type_error,
}
use cortex_cloud_api.Admin.Totals.{sum_of-sum_all, add_sums-or_zero}
use cortex_cloud_api.Completions.Streams.{in_session}
use cortex_cloud_api.Completions.Endpoint.{Services}
use cortex_cloud_api.Books.{Write, serve_all, migrated}
use cortex_cloud_api.Books.Kept.{Kept, Pays, serve_all_keeps}
use cortex_cloud_api.Dashboard.Decimals.{Decimal}
use cortex_cloud_api.Books.Sums.{balances}
use cortex_cloud_api.Books.Sound.{IsSound}
use cortex_cloud_api.Books.Handlers.{
  record_usage-IsSound, simulated_deposit-IsSound, register-IsSound, create_key-IsSound,
  revoke_key-IsSound, admin_create_model-IsSound, admin_toggle_model-IsSound,
}

-- An amount of whole micro-dollars, as six places can write it.
abbrev pub HasMicros : Decimal → Type 0
HasMicros amount = amount.places ≤ 6

IsSound-Kept : Kept IsSound HasMicros
IsSound-Kept = record {
  usage = record_usage-IsSound;
  registration = register-IsSound;
  key_creation = create_key-IsSound;
  revocation = revoke_key-IsSound;
  payment = simulated_deposit-IsSound;
  model_creation = admin_create_model-IsSound;
  toggle = admin_toggle_model-IsSound;
}

pub migrated-IsSound : (clock : ℕ) → IsSound (migrated clock).db
migrated-IsSound clock = record {
  balanced = tt;
  booked = tt;
  opened = tt;
  distinct = tt;
  kinds = tt;
  summed = refl;
}

module _ (w : World) where
  abbrev pub deposits_sum : ℤ
  deposits_sum = sum_of deposit w.db.transactions

  abbrev pub charges_sum : ℤ
  charges_sum = sum_of usage_charge w.db.transactions

  abbrev pub revenue_answer : Result Revenue
  revenue_answer = (in_session admin_view_revenue w).0

  -- The administrator is shown the sum of the balances, where the deposits and the charges are both
  -- nought or both not; else a Decimal meets a float.
  abbrev pub IsShown : Type 0
  IsShown =
      ((is_nonzero deposits_sum ≡ is_nonzero charges_sum)
        × (r : Revenue) × (revenue_answer ≡ ok r)
        × (r.ledger_balance ≡ balances w.db.accounts))
      ⊎ ((is_nonzero deposits_sum ≡ not (is_nonzero charges_sum))
          × (revenue_answer ≡ raised type_error))

  shown :
      IsSound w.db
      → ((is_nonzero deposits_sum ≡ is_nonzero charges_sum)
          × (add_sums (or_zero deposits_sum) (or_zero charges_sum)
              ≡ ok (deposits_sum +ℤ charges_sum)))
        ⊎ ((is_nonzero deposits_sum ≡ not (is_nonzero charges_sum))
            × (add_sums (or_zero deposits_sum) (or_zero charges_sum) ≡ raised type_error))
      → IsShown
  unfolding admin_view_revenue
  shown books (inl (same, added)) = inl (
    same,
    revenue_with (or_zero charges_sum) (or_zero deposits_sum) (deposits_sum +ℤ charges_sum),
    ap
        (λ total.
          ((lift total >>= λ n. pure (revenue_with (or_zero charges_sum) (or_zero deposits_sum) n))
            (record w { pending_rollback = false })).0)
        added,
    sum_of-sum_all w.db.transactions books.kinds ∙ sym books.summed,
  )
  shown books (inr (differs, added)) = inr (
    differs,
    ap
        (λ total.
          ((lift total >>= λ n. pure (revenue_with (or_zero charges_sum) (or_zero deposits_sum) n))
            (record w { pending_rollback = false })).0)
        added,
  )

module _ (services : Services) (str_item : ℤ → String) (str_items : List ℤ → String)
    (answer : ℕ → Provider → ProviderContext → EmbeddingsRequest → Answer EmbeddingsResponse) where
  -- Whatever requests are served, one after another, and however each of them ends, the books stay
  -- sound, as long as no amount of a deposit has more than six places: every balance is the sum of its
  -- account's transactions, no two accounts have one id, no id is used that is not handed out yet, no
  -- transaction is a refund, and the sum of the balances is that of the transactions.
  pub serve_all-IsSound :
      (requests : List Write) (w : World)
      → All (Pays HasMicros) requests
      → IsSound w.db
      → IsSound (serve_all services str_item str_items answer requests w).db
  serve_all-IsSound =
      serve_all_keeps IsSound HasMicros IsSound-Kept services str_item str_items answer

  -- Whatever requests are served after the migrations, as long as no amount of a deposit has more than
  -- six places, an administrator is shown the sum of the balances of all accounts as the ledger
  -- balance, if there are deposits and charges, or neither; with only one of the two, the view raises a
  -- TypeError.
  pub admin_view_revenue-balances :
      (clock : ℕ) (requests : List Write)
      → All (Pays HasMicros) requests
      → IsShown (serve_all services str_item str_items answer requests (migrated clock))
  admin_view_revenue-balances clock requests all =
      let w : World = serve_all services str_item str_items answer requests (migrated clock) in
      shown w (serve_all-IsSound requests (migrated clock) all (migrated-IsSound clock))
        (add_sums-or_zero (deposits_sum w) (charges_sum w))
