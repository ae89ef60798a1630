-- ===== src/Bridge/Run.antt =====
-- Code that reads and writes the store, calls services and may throw. What was written before a
-- throw stays written, so the world comes back beside the error too.
use wizteros.Common.{ℕ, Option, none, some, List, [], ◌∷◌}
use wizteros.Store.{Store}
use wizteros.Bridge.Types.{Call, Trace}

pub record World : Type 0 where
  pub store : Store
  pub calls : Trace

-- What may be thrown: a service that failed, a Stripe object without a field it must carry, an event
-- that names no customer, a tier with no libraries, a date out of range, and the status of a refused admin request.
pub data Error : Type 0 where
  call_failed missing_field no_customer tier_scope_empty out_of_range : Error
  http : ℕ → Error

pub data Result (A : Type 0) : Type 0 where
  ok : A → Result A
  err : Error → Result A

abbrev pub M : Type 0 → Type 0
M A = World → Result A × World

module _ {A : Type 0} where
  unfoldable pub pure : A → M A
  pure a w = (ok a, w)

  unfoldable pub raise : Error → M A
  raise e w = (err e, w)

  unfoldable pub gets : (Store → A) → M A
  gets f w = (ok (f w.store), w)

  unfoldable pub answered : Option A → World → Result A × World
  answered none w = (err call_failed, w)
  answered (some a) w = (ok a, w)

  -- Makes a call; the answer may depend on every call before it.
  unfoldable pub perform : Call → (Trace → Option A) → M A
  unfolding answered
  perform call answer w = answered (answer w.calls) (record w { calls = call ∷ w.calls })

  unfoldable pub handled : Result A → (Error → M A) → World → Result A × World
  handled (ok a) handler w = (ok a, w)
  handled (err e) handler w = handler e w

  -- `promise.catch(handler)`
  unfoldable pub catch : M A → (Error → M A) → M A
  unfolding handled
  catch m handler w = let (r, w') = m w in handled r handler w'

unfoldable pub modify : (Store → Store) → M (Unit {0})
modify f w = (ok tt, record w { store = f w.store })

module _ {A B : Type 0} where
  unfoldable pub continue : Result A → (A → M B) → M B
  continue (ok a) f w = f a w
  continue (err e) f w = (err e, w)

  infixl 5 ◌>>=◌ ◌>>◌
  unfoldable pub ◌>>=◌ : M A → (A → M B) → M B
  unfolding continue
  ◌>>=◌ m f w = let (r, w') = m w in continue r f w'

  abbrev pub ◌>>◌ : M A → M B → M B
  m >> n = m >>= λ _. n

  unfoldable pub both_ok : Result A → Result B → Result (A × B)
  both_ok (ok a) (ok b) = ok (a, b)
  both_ok (ok a) (err e) = err e
  both_ok (err e) _ = err e

  -- `Promise.all` of two calls: both are made, and one that throws makes the whole throw.
  unfoldable pub both : M A → M B → M (A × B)
  unfolding both_ok
  both m n w = let (r, w') = m w in let (q, w'') = n w' in (both_ok r q, w'')

-- sequence.ts: each call is made after the one before it; one that throws stops the rest.
unfoldable pub each_in_order : {A : Type 0} → List A → (A → M (Unit {0})) → M (Unit {0})
unfolding pure ◌>>=◌
each_in_order [] run = pure tt
each_in_order (x ∷ xs) run = do run x; each_in_order xs run

unfoldable pub map_in_order : {A B : Type 0} → List A → (A → M B) → M (List B)
unfolding pure ◌>>=◌
map_in_order [] run = pure []
map_in_order (x ∷ xs) run = do b ← run x; bs ← map_in_order xs run; pure (b ∷ bs)

-- Runs `m` if there is a value, and otherwise answers with a default.
abbrev pub given : {A B : Type 0} → Option A → M B → (A → M B) → M B
given none m f = m
given (some a) m f = f a
