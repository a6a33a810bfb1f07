-- ===== src/World/Monad.antt =====
-- Actions: Go functions that change the world and return a value or an error.
use Prim.Native.String.{String}
use ach_orchestrator.Base.{ℕ, Bool, List, [], ◌∷◌, ◌≡◌, refl, ap, ◌⊎◌, inl, inr, if◌then◌else◌}
use ach_orchestrator.Domain.Payment.{PaymentState}
use ach_orchestrator.World.Tables.{World}

-- The errors, by what the source tells apart. `nil_pointer` and `out_of_range` are panics, and
-- `wrap` is `fmt.Errorf("…: %w", err)`.
pub data Error : Type 0 where
  failed : String → Error
  illegal_transition : PaymentState → PaymentState → ℕ → Error
  not_found : ℕ → Error
  trace_exists nil_pointer out_of_range : Error
  wrap : String → Error → Error

pub data Result (A : Type 0) : Type 0 where
  ok : A → Result A
  err : Error → Result A

abbrev pub Action : Type 0 → Type 0
Action A = World → Result A × World

module _ {A : Type 0} where
  abbrev pub pure : A → Action A
  pure a w = (ok a, w)

  abbrev pub raise : Error → Action A
  raise e w = (err e, w)

  abbrev pub gets : (World → A) → Action A
  gets f w = (ok (f w), w)

  -- `if err != nil { return fmt.Errorf("context: %w", err) }`
  abbrev pub wrapped : String → Result A → Result A
  wrapped context (ok a) = ok a
  wrapped context (err e) = err (wrap context e)

  abbrev pub on_error : String → Action A → Action A
  on_error context m w = let (r, w') = m w in (wrapped context r, w')

infixl 5 ◌>>=◌ ◌>>◌
abbrev pub ◌>>=◌ : {A B : Type 0} → Action A → (A → Action B) → Action B
◌>>=◌ m f w = let (r, w') = m w in elim r [ ok a ↦ f a w' | err e ↦ raise e w' ]

abbrev pub ◌>>◌ : {A B : Type 0} → Action A → Action B → Action B
m >> k = m >>= λ _. k

abbrev pub modify : (World → World) → Action (Unit {0})
modify f w = (ok tt, f w)

-- A call of a service that may fail: the next entry of the script says whether it does.
abbrev pub next_fault : String → List Bool → Result (Unit {0}) × List Bool
next_fault what [] = (ok tt, [])
next_fault what (f ∷ fs) = (if f then err (failed what) else ok tt, fs)

unfoldable pub io : String → Action (Unit {0})
io what w = let (r, fs) = next_fault what w.faults in (r, record w { faults = fs })

abbrev pub IsErr : {A : Type 0} → Result A → Type 0
IsErr (ok a) = ⊥
IsErr (err e) = Unit {0}

pub Result-cases :
    {A : Type 0} (r : Result A) → ((a : A) × (r ≡ ok a)) ⊎ ((e : Error) × (r ≡ err e))
Result-cases (ok a) = inl (a, refl)
Result-cases (err e) = inr (e, refl)

-- What holds behind a bind: of what follows an `ok`, and of the error.
pub bind_rule :
    {A B : Type 0} (P : Result B × World → Type 0) (m : Action A) (f : A → Action B) (w : World)
    → ((a : A) → (m w).0 ≡ ok a → P (f a (m w).1))
    → ((e : Error) → (m w).0 ≡ err e → P (err e, (m w).1))
    → P ((m >>= f) w)
bind_rule P m f w good bad = elim (Result-cases (m w).0) [
  | inl (a, e) ↦ rw (e, ◌>>=◌) (good a e)
  | inr (x, e) ↦ rw (e, ◌>>=◌) (bad x e)
]

-- A fact about the world that the first part establishes and the second keeps.
pub world_rule :
    {A B : Type 0} (Q : World → Type 0) (m : Action A) (f : A → Action B) (w : World)
    → Q (m w).1
    → ((a : A) → (m w).0 ≡ ok a → Q (f a (m w).1).1)
    → Q ((m >>= f) w).1
world_rule Q m f w h rest = bind_rule (λ out. Q out.1) m f w rest (λ _ _. h)

-- A bind whose first part succeeds goes on with the second.
pub bind-ok :
    {A B : Type 0} (m : Action A) (f : A → Action B) (w : World) (a : A)
    → (m w).0 ≡ ok a
    → (m >>= f) w ≡ f a (m w).1
bind-ok m f w a e = rw (e, ◌>>=◌)

-- The same with the world behind the first part, and for a wrapped error.
pub bind-done :
    {A B : Type 0} (m : Action A) (f : A → Action B) (w w' : World) (a : A)
    → m w ≡ (ok a, w')
    → (m >>= f) w ≡ f a w'
bind-done m f w w' a e = ap (λ (o : Result _ × World). ((λ (_ : World). o) >>= f) w) e

pub on_error-done :
    {A : Type 0} (context : String) (m : Action A) (w w' : World) (a : A)
    → m w ≡ (ok a, w')
    → on_error context m w ≡ (ok a, w')
on_error-done context m w w' a e =
    ap (λ (o : Result _ × World). on_error context (λ (_ : World). o) w) e
