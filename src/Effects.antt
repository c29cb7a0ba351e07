-- ===== src/Effects.antt =====
-- What a handler may do: return, or raise an exception, over a state that it changes. What was
-- written before a raise stays written, so the state comes back beside the exception too.
pub mod After
pub mod Results
use cortex_cloud_api.Prelude.{
  ℕ, String, Bool, Option, none, some, ◌≡◌, refl, ap, ◌∙◌, ◌⊎◌, inl, inr, if◌then◌else◌,
}

-- The text of an error, with the values that the source's f-strings put into it kept apart.
pub data Detail : Type 0 where
  message : String → Detail
  -- a text about one name: a model, a provider, a key
  about : String → String → Detail
  -- `str(e)` behind a fixed text
  wrapped : String → Detail → Detail
  -- `str` of an HTTPException: its status code and its detail
  shown : ℕ → Detail → Detail
  -- the two failures of a routed request: the model, its status code, the fallback, its error
  both_failed : String → ℕ → String → Detail → Detail

pub data Exn : Type 0 where
  -- `HTTPException(status_code, detail)`
  http : ℕ → Detail → Exn
  -- any other exception, by its text
  other : Detail → Exn

abbrev pub str_exn : Exn → Detail
str_exn (http code detail) = shown code detail
str_exn (other detail) = detail

pub data Result (A : Type 0) : Type 0 where
  ok : A → Result A
  raised : Exn → Result A

abbrev pub Exec : Type 0 → Type 0 → Type 0
Exec S A = S → Result A × S

module _ {S A : Type 0} where
  abbrev pub pure : A → Exec S A
  pure a s = (ok a, s)

  abbrev pub raise : Exn → Exec S A
  raise e s = (raised e, s)

  abbrev pub gets : (S → A) → Exec S A
  gets f s = (ok (f s), s)

  abbrev pub lift : Result A → Exec S A
  lift r s = (r, s)

  -- `except Exception as e: handler(e)`, for the block that ended so.
  abbrev pub handle : (Exn → Exec S A) → Result A × S → Result A × S
  handle handler (ok a, s) = (ok a, s)
  handle handler (raised e, s) = handler e s

  -- `try: m except Exception as e: handler(e)`
  abbrev pub catch : Exec S A → (Exn → Exec S A) → Exec S A
  catch m handler s = handle handler (m s)

  abbrev pub or_raise : Option A → Exn → Exec S A
  or_raise none e = raise e
  or_raise (some a) e = pure a

abbrev pub proceed : {S A B : Type 0} → (A → Exec S B) → Result A × S → Result B × S
proceed f (ok a, s) = f a s
proceed f (raised e, s) = (raised e, s)

infixl 5 ◌>>=◌ ◌>>◌
abbrev pub ◌>>=◌ : {S A B : Type 0} → Exec S A → (A → Exec S B) → Exec S B
◌>>=◌ m f s = proceed f (m s)

abbrev pub ◌>>◌ : {S A B : Type 0} → Exec S A → Exec S B → Exec S B
m >> k = m >>= λ _. k

abbrev pub modify : {S : Type 0} → (S → S) → Exec S (Unit {0})
modify f s = (ok tt, f s)

abbrev pub raise_if : {S : Type 0} → Bool → Exn → Exec S (Unit {0})
raise_if c e s = (if c then raised e else ok tt, s)

pub Result-cases :
    {A : Type 0} (r : Result A) → ((a : A) × (r ≡ ok a)) ⊎ ((e : Exn) × (r ≡ raised e))
Result-cases (ok a) = inl (a, refl)
Result-cases (raised e) = inr (e, refl)

-- A chain of steps that only read leaves the state as it was.
pub reads-bind :
    {S A B : Type 0} (m : Exec S A) (f : A → Exec S B) (s : S)
    → (m s).1 ≡ s
    → ((a : A) → (f a s).1 ≡ s)
    → ((m >>= f) s).1 ≡ s
reads-bind m f s h k = elim (Result-cases (m s).0) [
  | inl (a, e) ↦ rw (e, ◌>>=◌) (ap (λ t. (f a t).1) h ∙ k a)
  | inr (x, e) ↦ rw (e, ◌>>=◌) h
]

pub catch-raised :
    {S A : Type 0} (m : Exec S A) (handler : Exn → Exec S A) (s : S) {e : Exn} {t : S}
    → m s ≡ (raised e, t)
    → catch m handler s ≡ handler e t
catch-raised m handler s h = ap (handle handler) h

pub catch-ok :
    {S A : Type 0} (m : Exec S A) (handler : Exn → Exec S A) (s : S) {a : A} {t : S}
    → m s ≡ (ok a, t)
    → catch m handler s ≡ (ok a, t)
catch-ok m handler s h = ap (handle handler) h

pub bind-ok :
    {S A B : Type 0} (m : Exec S A) (f : A → Exec S B) (s : S) {a : A} {t : S}
    → m s ≡ (ok a, t)
    → (m >>= f) s ≡ f a t
bind-ok m f s h = ap (proceed f) h

pub bind-raised :
    {S A B : Type 0} (m : Exec S A) (f : A → Exec S B) (s : S) {e : Exn} {t : S}
    → m s ≡ (raised e, t)
    → (m >>= f) s ≡ (raised e, t)
bind-raised m f s h = ap (proceed f) h
