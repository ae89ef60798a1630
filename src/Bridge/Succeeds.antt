-- ===== src/Bridge/Succeeds.antt =====
-- Code that never throws, whatever the services answer.
use wizteros.Common.{if◌then◌else◌, Bool, true, false, Option, none, some, List, [], ◌∷◌}
use wizteros.Store.{Store}
use wizteros.Bridge.Types.{Call, Trace}
use wizteros.Bridge.Run.{
  World, Error, Result, ok, err, M, pure, gets, answered, perform, handled, catch, modify, continue,
  ◌>>=◌, map_in_order, given,
}

abbrev IsOk : {A : Type 0} → Result A → Type 0
IsOk (ok a) = Unit
IsOk (err e) = ⊥

-- From every world the code returns.
pub record Succeeds {A : Type 0} (m : M A) : Type 0 where
  pub at : (w : World) → IsOk (m w).0

module _ {A : Type 0} where
  pub Succeeds-pure : (a : A) → Succeeds (pure a)
  unfolding pure
  Succeeds-pure a = record { at = λ w. tt }

  pub Succeeds-gets : (f : Store → A) → Succeeds (gets f)
  unfolding gets
  Succeeds-gets f = record { at = λ w. tt }

  -- A call that every service answers.
  pub Succeeds-perform :
      (call : Call) (answer : Trace → A) → Succeeds (perform call (λ t. some (answer t)))
  unfolding perform answered
  Succeeds-perform call answer = record { at = λ w. tt }

  caught-IsOk :
      (r : Result A) (handler : Error → M A) (w : World)
      → ((e : Error) → Succeeds (handler e))
      → IsOk (handled r handler w).0
  unfolding handled
  caught-IsOk (ok a) handler w h = tt
  caught-IsOk (err e) handler w h = (h e).at w

  pub Succeeds-catch :
      (m : M A) (handler : Error → M A)
      → ((e : Error) → Succeeds (handler e))
      → Succeeds (catch m handler)
  unfolding catch
  Succeeds-catch m handler h = record { at = λ w. let (r, v) = m w in caught-IsOk r handler v h }

  pub Succeeds-if : (c : Bool) (m n : M A) → Succeeds m → Succeeds n → Succeeds (if c then m else n)
  Succeeds-if true m n h k = h
  Succeeds-if false m n h k = k

pub Succeeds-modify : (f : Store → Store) → Succeeds (modify f)
unfolding modify
Succeeds-modify f = record { at = λ w. tt }

module _ {A B : Type 0} where
  continued-IsOk :
      (r : Result A) (f : A → M B) (w : World)
      → IsOk r
      → ((a : A) → Succeeds (f a))
      → IsOk (continue r f w).0
  unfolding continue
  continued-IsOk (ok a) f w h k = (k a).at w
  continued-IsOk (err e) f w h k = absurd h

  pub Succeeds-bind :
      (m : M A) (f : A → M B) → Succeeds m → ((a : A) → Succeeds (f a)) → Succeeds (m >>= f)
  unfolding ◌>>=◌
  Succeeds-bind m f h k = record { at = λ w. let (r, v) = m w in continued-IsOk r f v (h.at w) k }

  pub Succeeds-given :
      (o : Option A) (m : M B) (f : A → M B)
      → Succeeds m
      → ((a : A) → Succeeds (f a))
      → Succeeds (given o m f)
  Succeeds-given none m f h k = h
  Succeeds-given (some a) m f h k = k a

pub Succeeds-map_in_order :
    {A B : Type 0} (xs : List A) (run : A → M B)
    → ((a : A) → Succeeds (run a))
    → Succeeds (map_in_order xs run)
unfolding map_in_order
Succeeds-map_in_order [] run h = Succeeds-pure []
Succeeds-map_in_order (x ∷ xs) run h = Succeeds-bind (run x) _ (h x) (λ b.
    Succeeds-bind (map_in_order xs run) _ (Succeeds-map_in_order xs run h) (λ bs. Succeeds-pure _))

pub ruleset succeeds_rules = (
  Succeeds-pure, Succeeds-gets, Succeeds-perform, Succeeds-catch, Succeeds-if, Succeeds-modify,
  Succeeds-bind, Succeeds-given, Succeeds-map_in_order,
)
