-- ===== src/Bridge/Ensures.antt =====
-- Code that ensures something of each call that it makes, and of what it returns.
use wizteros.Common.{
  if◌then◌else◌, All, All-append, All-everywhere, ◌≡◌, refl, ap, ◌∙◌, Bool, true, false, Option,
  none, some, List, [], ◌∷◌, ◌++◌, append_assoc,
}
use wizteros.Store.{Store}
use wizteros.Bridge.Types.{Call, Trace}
use wizteros.Bridge.Run.{
  World, Result, ok, err, M, pure, gets, answered, perform, handled, catch, modify, continue, ◌>>=◌,
  each_in_order, map_in_order, given,
}

-- What holds of a value that came back; nothing is said of a throw.
abbrev pub Returned : {A : Type 0} → (A → Type 0) → Result A → Type 0
Returned Q (ok a) = Q a
Returned Q (err e) = Unit

abbrev pub MadeSince : (Call → Type 0) → World → World → Type 0
MadeSince P w w' = (made : Trace) × (w'.calls ≡ made ++ w.calls) × All P made

pub record Ensures {A : Type 0} (P : Call → Type 0) (Q : A → Type 0) (m : M A) : Type 0 where
  pub since : (w : World) → MadeSince P w (m w).1
  pub back : (w : World) → Returned Q (m w).0

any_result : {A : Type 0} (Q : A → Type 0) (r : Result A) → Returned Q r → Returned (λ _. Unit) r
any_result Q (ok a) h = tt
any_result Q (err e) h = tt

-- What is ensured of the calls alone.
pub record Makes {A : Type 0} (P : Call → Type 0) (m : M A) : Type 0 where
  pub ensured : Ensures P (λ _. Unit) m

module _ {P : Call → Type 0} where
  MadeSince-refl : (w : World) → MadeSince P w w
  MadeSince-refl w = ([], refl, tt)

  MadeSince-trans : (u v w : World) → MadeSince P u v → MadeSince P v w → MadeSince P u w
  MadeSince-trans u v w (old, e, h) (new, f, k) = (
    new ++ old,
    rw (append_assoc new old u.calls) (f ∙ ap (λ calls. new ++ calls) e),
    All-append P new old k h,
  )

  pub Ensures-pure : {A : Type 0} (Q : A → Type 0) (a : A) → Q a → Ensures P Q (pure a)
  unfolding pure
  Ensures-pure Q a h = record { since = MadeSince-refl; back = λ w. h }

  pub Ensures-modify : (f : Store → Store) → Ensures P (λ _. Unit) (modify f)
  unfolding modify
  Ensures-modify f = record { since = λ w. ([], refl, tt); back = λ w. tt }

  module _ {A : Type 0} (Q : A → Type 0) (call : Call) where
    answered-Ensures :
        (o : Option A) (w : World)
        → P call
        → ((a : A) → o ≡ some a → Q a)
        → MadeSince P w (answered o (record w { calls = call ∷ w.calls })).1
          × Returned Q (answered o (record w { calls = call ∷ w.calls })).0
    unfolding answered
    answered-Ensures none w p q = ((call ∷ [], refl, (p, tt)), tt)
    answered-Ensures (some a) w p q = ((call ∷ [], refl, (p, tt)), q a refl)

    pub Ensures-perform :
        (answer : Trace → Option A)
        → P call
        → ((t : Trace) (a : A) → answer t ≡ some a → Q a)
        → Ensures P Q (perform call answer)
    unfolding perform
    Ensures-perform answer p q = record {
      since = λ w. (answered-Ensures (answer w.calls) w p (q w.calls)).0;
      back = λ w. (answered-Ensures (answer w.calls) w p (q w.calls)).1;
    }

  module _ {A B : Type 0} (Q : A → Type 0) (R : B → Type 0) (f : A → M B)
      (after : (a : A) → Q a → Ensures P R (f a)) where
    continued :
        (r : Result A) (w : World)
        → Returned Q r
        → MadeSince P w (continue r f w).1 × Returned R (continue r f w).0
    unfolding continue
    continued (ok a) w q = ((after a q).since w, (after a q).back w)
    continued (err e) w q = (MadeSince-refl w, tt)

    pub Ensures-bind : (m : M A) → Ensures P Q m → Ensures P R (m >>= f)
    unfolding ◌>>=◌
    Ensures-bind m h = record {
      since = λ w.
          let (r, v) = m w in
          MadeSince-trans w v (continue r f v).1 (h.since w) (continued r v (h.back w)).0;
      back = λ w. let (r, v) = m w in (continued r v (h.back w)).1;
    }

  pub Ensures-map_in_order :
      {A B : Type 0} (Q : A → Type 0) (R : B → Type 0) (run : A → M B) (xs : List A)
      → ((a : A) → Q a → Ensures P R (run a))
      → All Q xs
      → Ensures P (All R) (map_in_order xs run)
  unfolding map_in_order
  Ensures-map_in_order Q R run [] h q = Ensures-pure (All R) [] tt
  Ensures-map_in_order Q R run (x ∷ xs) h (q, qs) =
      Ensures-bind R (All R) _
        (λ b r.
          Ensures-bind (All R) (All R) _ (λ bs rs. Ensures-pure (All R) (b ∷ bs) (r, rs))
            (map_in_order xs run) (Ensures-map_in_order Q R run xs h qs))
        (run x) (h x q)

  pub Makes-any : {A : Type 0} (Q : A → Type 0) (m : M A) → Ensures P Q m → Makes P m
  Makes-any Q m h = record {
    ensured = record { since = h.since; back = λ w. any_result Q (m w).0 (h.back w) };
  }

  pub Makes-pure : {A : Type 0} (a : A) → Makes P (pure a)
  Makes-pure a = record { ensured = Ensures-pure (λ _. Unit) a tt }

  pub Makes-gets : {A : Type 0} (f : Store → A) → Makes P (gets f)
  unfolding gets
  Makes-gets f = record { ensured = record { since = MadeSince-refl; back = λ w. tt } }

  pub Makes-if :
      {A : Type 0} (c : Bool) (m n : M A) → Makes P m → Makes P n → Makes P (if c then m else n)
  Makes-if true m n h k = h
  Makes-if false m n h k = k

  pub Makes-modify : (f : Store → Store) → Makes P (modify f)
  Makes-modify f = record { ensured = Ensures-modify f }

  pub Makes-perform :
      {A : Type 0} (call : Call) (answer : Trace → Option A)
      → P call
      → Makes P (perform call answer)
  Makes-perform call answer p = record {
    ensured = Ensures-perform (λ _. Unit) call answer p (λ _ _ _. tt);
  }

  pub Makes-bind_of :
      {A B : Type 0} (Q : A → Type 0) (m : M A) (f : A → M B)
      → Ensures P Q m
      → ((a : A) → Q a → Makes P (f a))
      → Makes P (m >>= f)
  Makes-bind_of Q m f h k = record {
    ensured = Ensures-bind Q (λ _. Unit) f (λ a q. (k a q).ensured) m h;
  }

  pub Makes-bind :
      {A B : Type 0} (m : M A) (f : A → M B)
      → Makes P m
      → ((a : A) → Makes P (f a))
      → Makes P (m >>= f)
  Makes-bind m f h k = Makes-bind_of (λ _. Unit) m f h.ensured (λ a _. k a)

  pub Makes-given :
      {A B : Type 0} (o : Option A) (m : M B) (f : A → M B)
      → Makes P m
      → ((a : A) → Makes P (f a))
      → Makes P (given o m f)
  Makes-given none m f h k = h
  Makes-given (some a) m f h k = k a

  pub Makes-map_in_order_of :
      {A B : Type 0} (Q : A → Type 0) (xs : List A) (run : A → M B)
      → ((a : A) → Q a → Makes P (run a))
      → All Q xs
      → Makes P (map_in_order xs run)
  Makes-map_in_order_of Q xs run h q =
      Makes-any (All (λ _. Unit)) (map_in_order xs run)
        (Ensures-map_in_order Q (λ _. Unit) run xs (λ a q. (h a q).ensured) q)

  pub Makes-map_in_order :
      {A B : Type 0} (xs : List A) (run : A → M B)
      → ((a : A) → Makes P (run a))
      → Makes P (map_in_order xs run)
  Makes-map_in_order xs run h =
      Makes-map_in_order_of (λ _. Unit) xs run (λ a _. h a)
        (All-everywhere (λ _. Unit) (λ _. tt) xs)

  -- A handler that makes no call of its own.
  pub Ensures-catch :
      {A : Type 0} (Q : A → Type 0) (m : M A) (a : A)
      → Q a
      → Ensures P Q m
      → Ensures P Q (catch m (λ e. pure a))
  unfolding catch pure handled
  Ensures-catch {A} Q m a q h = record {
    since = λ w.
        let (r, v) = m w in
        MadeSince-trans w v (handled r (λ e. pure a) v).1 (h.since w) (handled-since r v);
    back = λ w. let (r, v) = m w in handled-back r v (h.back w);
  }
    where
      handled-since : (r : Result A) (v : World) → MadeSince P v (handled r (λ e. pure a) v).1
      handled-since (ok x) v = MadeSince-refl v
      handled-since (err e) v = MadeSince-refl v

      handled-back :
          (r : Result A) (v : World) → Returned Q r → Returned Q (handled r (λ e. pure a) v).0
      handled-back (ok x) v k = k
      handled-back (err e) v k = q

  pub Makes-catch : {A : Type 0} (m : M A) (a : A) → Makes P m → Makes P (catch m (λ e. pure a))
  Makes-catch m a h = record { ensured = Ensures-catch (λ _. Unit) m a tt h.ensured }

  pub Makes-each_in_order_of :
      {A : Type 0} (Q : A → Type 0) (xs : List A) (run : A → M (Unit {0}))
      → ((a : A) → Q a → Makes P (run a))
      → All Q xs
      → Makes P (each_in_order xs run)
  unfolding each_in_order
  Makes-each_in_order_of Q [] run h q = Makes-pure tt
  Makes-each_in_order_of Q (x ∷ xs) run h (q, qs) =
      Makes-bind (run x) _ (h x q) (λ _. Makes-each_in_order_of Q xs run h qs)

pub ruleset makes_rules = (
  Makes-pure, Makes-modify, Makes-perform, Makes-bind, Makes-given, Makes-map_in_order, Makes-catch,
)
