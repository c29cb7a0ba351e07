-- ===== src/Effects/After.antt =====
-- What holds after a call, by how it ended, and the rules for chains of calls.
use cortex_cloud_api.Prelude.{◌≡◌, refl}
use cortex_cloud_api.Effects.{Exn, Result, ok, raised, Exec, catch, handle, proceed, ◌>>=◌}

module _ {S : Type 0} where
  -- `Q` of the value and the state if it returned, `E` of the exception and the state if it raised.
  abbrev pub After : {A : Type 0} → (A → S → Type 0) → (Exn → S → Type 0) → Result A × S → Type 0
  After Q E (ok a, s) = Q a s
  After Q E (raised e, s) = E e s

  proceed-After :
      {A B : Type 0} (Q : A → S → Type 0) (Q' : B → S → Type 0) (E : Exn → S → Type 0)
      (f : A → Exec S B) (r : Result A × S)
      → After Q E r
      → ((a : A) (t : S) → Q a t → After Q' E (f a t))
      → After Q' E (proceed f r)
  proceed-After Q Q' E f (ok a, s) h k = k a s h
  proceed-After Q Q' E f (raised e, s) h k = h

  pub bind-After :
      {A B : Type 0} (Q : A → S → Type 0) (Q' : B → S → Type 0) (E : Exn → S → Type 0)
      (m : Exec S A) (f : A → Exec S B) (s : S)
      → After Q E (m s)
      → ((a : A) (t : S) → Q a t → After Q' E (f a t))
      → After Q' E ((m >>= f) s)
  bind-After Q Q' E m f s h k = proceed-After Q Q' E f (m s) h k

  handle-After :
      {A : Type 0} (Q : A → S → Type 0) (E E' : Exn → S → Type 0) (handler : Exn → Exec S A)
      (r : Result A × S)
      → After Q E r
      → ((e : Exn) (t : S) → E e t → After Q E' (handler e t))
      → After Q E' (handle handler r)
  handle-After Q E E' handler (ok a, s) h k = h
  handle-After Q E E' handler (raised e, s) h k = k e s h

  pub catch-After :
      {A : Type 0} (Q : A → S → Type 0) (E E' : Exn → S → Type 0) (m : Exec S A)
      (handler : Exn → Exec S A) (s : S)
      → After Q E (m s)
      → ((e : Exn) (t : S) → E e t → After Q E' (handler e t))
      → After Q E' (catch m handler s)
  catch-After Q E E' m handler s h k = handle-After Q E E' handler (m s) h k

  -- What holds of the state however the call ended.
  pub After-state :
      {A : Type 0} (P : S → Type 0) (r : Result A × S) → After (λ a s. P s) (λ e s. P s) r → P r.1
  After-state P (ok a, s) h = h
  After-state P (raised e, s) h = h

  -- A call that leaves the state as it was.
  pub reads-After :
      {A : Type 0} (E : Exn → S → Type 0) (s : S) (r : Result A × S)
      → r.1 ≡ s
      → ((e : Exn) (t : S) → t ≡ s → E e t)
      → After (λ a t. (t ≡ s) × (r.0 ≡ ok a)) E r
  reads-After E s (ok a, t) h k = (h, refl)
  reads-After E s (raised e, t) h k = k e t h

  -- A weaker conclusion.
  pub After-weaken :
      {A : Type 0} (Q Q' : A → S → Type 0) (E E' : Exn → S → Type 0) (r : Result A × S)
      → After Q E r
      → ((a : A) (t : S) → Q a t → Q' a t)
      → ((e : Exn) (t : S) → E e t → E' e t)
      → After Q' E' r
  After-weaken Q Q' E E' (ok a, s) h q k = q a s h
  After-weaken Q Q' E E' (raised e, s) h q k = k e s h

  pub After-ok :
      {A : Type 0} (a : A) (Q : A → S → Type 0) (E : Exn → S → Type 0) (r : Result A × S)
      → After Q E r
      → r.0 ≡ ok a
      → Q a r.1
  After-ok a Q E (ok b, s) h e = let same : b ≡ a = cc in rw (← same) h
  After-ok a Q E (raised x, s) h e = cc
