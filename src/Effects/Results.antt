-- ===== src/Effects/Results.antt =====
-- Chains of steps that may raise and keep no state: the translations of requests and replies.
use cortex_cloud_api.Prelude.{List, [], ◌∷◌, ◌≡◌, subst}
use cortex_cloud_api.Effects.{Result, ok, raised}

infixl 5 ◌>>=◌
abbrev pub ◌>>=◌ : {A B : Type 0} → Result A → (A → Result B) → Result B
ok a >>= f = f a
raised e >>= f = raised e

abbrev pub map_result : {A B : Type 0} → (A → B) → Result A → Result B
map_result f (ok a) = ok (f a)
map_result f (raised e) = raised e

-- `try: m except Exception: fallback`
abbrev pub or_else : {A : Type 0} → A → Result A → A
or_else fallback (ok a) = a
or_else fallback (raised e) = fallback

-- A loop that collects what each round gives.
abbrev pub traverse : {A B : Type 0} → (A → Result B) → List A → Result (List B)
traverse f [] = ok []
traverse f (a ∷ rest) = f a >>= λ b. map_result (λ bs. b ∷ bs) (traverse f rest)

-- What holds of the value, if there is one.
abbrev pub Gives : {A : Type 0} → (A → Type 0) → Result A → Type 0
Gives P (ok a) = P a
Gives P (raised e) = Unit

pub bind-Gives :
    {A B : Type 0} (P : A → Type 0) (Q : B → Type 0) (m : Result A) (f : A → Result B)
    → Gives P m
    → ((a : A) → P a → Gives Q (f a))
    → Gives Q (m >>= f)
bind-Gives P Q (ok a) f h k = k a h
bind-Gives P Q (raised e) f h k = tt

pub any-Gives :
    {A B : Type 0} (Q : B → Type 0) (m : Result A) (f : A → Result B)
    → ((a : A) → Gives Q (f a))
    → Gives Q (m >>= f)
any-Gives Q (ok a) f k = k a
any-Gives Q (raised e) f k = tt

pub map-Gives :
    {A B : Type 0} (P : A → Type 0) (Q : B → Type 0) (f : A → B) (m : Result A)
    → Gives P m
    → ((a : A) → P a → Q (f a))
    → Gives Q (map_result f m)
map-Gives P Q f (ok a) h k = k a h
map-Gives P Q f (raised e) h k = tt

pub Gives-ok : {A : Type 0} (P : A → Type 0) (m : Result A) {a : A} → Gives P m → m ≡ ok a → P a
Gives-ok P (ok b) {a} h e = let same : b ≡ a = cc in subst P same h
Gives-ok P (raised x) h e = cc
