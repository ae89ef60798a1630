-- ===== src/Bridge/Frame.antt =====
-- What code over the bridge leaves alone: a view of the store that it does not change, and the calls
-- that it may make. There is one rule for each way to build such code.
use wizteros.Common.{
  if◌then◌else◌, All, All-append, ℕ, String, ◌≡◌, refl, ap, ◌∙◌, Bool, true, false, Option, none,
  some, List, [], ◌∷◌, ◌++◌, append_assoc,
}
use wizteros.Store.{Entry, Store, record_event}
use wizteros.Bridge.Types.{Call, reads_clock, Trace, Bridge}
use wizteros.Bridge.Run.{
  World, Error, Result, ok, err, M, pure, raise, gets, answered, perform, handled, catch, modify,
  continue, ◌>>=◌, both, each_in_order, map_in_order, given,
}
use wizteros.Bridge.Calls.{now, log_event}

-- From a world to a later one the view stands, and every call made since passes `may`.
pub record Within {V : Type 0} (may : Call → Bool) (view : Store → V) (w w' : World) : Type 0 where
  pub kept : view w'.store ≡ view w.store
  pub made : Trace
  pub trace : w'.calls ≡ made ++ w.calls
  pub allowed : All (λ c. may c ≡ true) made

module _ {V : Type 0} {may : Call → Bool} {view : Store → V} where
  pub Within-refl : (w : World) → Within may view w w
  Within-refl w = record { kept = refl; made = []; trace = refl; allowed = tt }

  pub Within-trans :
      {u v w : World} → Within may view u v → Within may view v w → Within may view u w
  Within-trans {u} {v} {w} f g = record {
    kept = g.kept ∙ f.kept;
    made = g.made ++ f.made;
    trace =
        rw (append_assoc g.made f.made u.calls) (g.trace ∙ ap (λ calls. g.made ++ calls) f.trace);
    allowed = All-append (λ c. may c ≡ true) g.made f.made g.allowed f.allowed;
  }

-- Code that stays within these bounds wherever it starts, whether it returns or throws.
pub record Stays {V A : Type 0} (may : Call → Bool) (view : Store → V) (m : M A) : Type 0 where
  pub at : (w : World) → Within may view w (m w).1

module _ {V A : Type 0} {may : Call → Bool} {view : Store → V} where
  pub Stays-pure : (a : A) → Stays may view (pure a)
  unfolding pure
  Stays-pure a = record { at = λ w. Within-refl w }

  pub Stays-raise : (e : Error) → Stays may view (raise {A = A} e)
  unfolding raise
  Stays-raise e = record { at = λ w. Within-refl w }

  pub Stays-gets : (f : Store → A) → Stays may view (gets f)
  unfolding gets
  Stays-gets f = record { at = λ w. Within-refl w }

  performed :
      (call : Call) (o : Option A) (w : World)
      → may call ≡ true
      → Within may view w (answered o (record w { calls = call ∷ w.calls })).1
  unfolding answered
  performed call none w h = record {
    kept = refl;
    made = call ∷ [];
    trace = refl;
    allowed = (h, tt);
  }
  performed call (some a) w h = record {
    kept = refl;
    made = call ∷ [];
    trace = refl;
    allowed = (h, tt);
  }

  pub Stays-perform :
      (call : Call) (answer : Trace → Option A)
      → may call ≡ true
      → Stays may view (perform call answer)
  unfolding perform
  Stays-perform call answer h = record { at = λ w. performed call (answer w.calls) w h }

  pub Stays-if :
      (c : Bool) (m n : M A)
      → Stays may view m
      → Stays may view n
      → Stays may view (if c then m else n)
  Stays-if true m n sm sn = sm
  Stays-if false m n sm sn = sn

  caught :
      (r : Result A) (handler : Error → M A) (w : World)
      → ((e : Error) → Stays may view (handler e))
      → Within may view w (handled r handler w).1
  unfolding handled
  caught (ok a) handler w sh = Within-refl w
  caught (err e) handler w sh = (sh e).at w

  pub Stays-catch :
      (m : M A) (handler : Error → M A)
      → Stays may view m
      → ((e : Error) → Stays may view (handler e))
      → Stays may view (catch m handler)
  unfolding catch
  Stays-catch m handler sm sh = record {
    at = λ w. let (r, w') = m w in Within-trans (sm.at w) (caught r handler w' sh);
  }

module _ {V : Type 0} {may : Call → Bool} {view : Store → V} where
  pub Stays-modify :
      (f : Store → Store) → ((s : Store) → view (f s) ≡ view s) → Stays may view (modify f)
  unfolding modify
  Stays-modify f h = record {
    at = λ w. record { kept = h w.store; made = []; trace = refl; allowed = tt };
  }

module _ {V A B : Type 0} {may : Call → Bool} {view : Store → V} where
  continued :
      (r : Result A) (f : A → M B) (w : World)
      → ((a : A) → Stays may view (f a))
      → Within may view w (continue r f w).1
  unfolding continue
  continued (ok a) f w sf = (sf a).at w
  continued (err e) f w sf = Within-refl w

  pub Stays-bind :
      (m : M A) (f : A → M B)
      → Stays may view m
      → ((a : A) → Stays may view (f a))
      → Stays may view (m >>= f)
  unfolding ◌>>=◌
  Stays-bind m f sm sf = record {
    at = λ w. let (r, w') = m w in Within-trans (sm.at w) (continued r f w' sf);
  }

  pub Stays-both :
      (m : M A) (n : M B) → Stays may view m → Stays may view n → Stays may view (both m n)
  unfolding both
  Stays-both m n sm sn = record { at = λ w. let (r, w') = m w in Within-trans (sm.at w) (sn.at w') }

  pub Stays-given :
      (o : Option A) (m : M B) (f : A → M B)
      → Stays may view m
      → ((a : A) → Stays may view (f a))
      → Stays may view (given o m f)
  Stays-given none m f sm sf = sm
  Stays-given (some a) m f sm sf = sf a

module _ {V A B : Type 0} {may : Call → Bool} {view : Store → V} where
  pub Stays-map_in_order :
      (xs : List A) (run : A → M B)
      → ((a : A) → Stays may view (run a))
      → Stays may view (map_in_order xs run)
  unfolding map_in_order
  Stays-map_in_order [] run h = Stays-pure []
  Stays-map_in_order (x ∷ xs) run h =
      Stays-bind (run x) _ (h x)
        (λ b. Stays-bind (map_in_order xs run) _ (Stays-map_in_order xs run h) (λ bs. Stays-pure _))

module _ {V A : Type 0} {may : Call → Bool} {view : Store → V} where
  pub Stays-each_in_order :
      (xs : List A) (run : A → M (Unit {0}))
      → ((a : A) → Stays may view (run a))
      → Stays may view (each_in_order xs run)
  unfolding each_in_order
  Stays-each_in_order [] run h = Stays-pure tt
  Stays-each_in_order (x ∷ xs) run h =
      Stays-bind (run x) _ (h x) (λ _. Stays-each_in_order xs run h)

pub ruleset frame_rules = (
  Stays-pure, Stays-raise, Stays-gets, Stays-perform, Stays-if, Stays-catch, Stays-bind, Stays-both,
  Stays-given, Stays-map_in_order, Stays-each_in_order,
)

-- Logging an event changes the history alone.
pub Stays-log_event :
    {V : Type 0} (may : Call → Bool) (view : Store → V) (b : Bridge) (email : String)
    (entry : Entry)
    → may reads_clock ≡ true
    → ((at : ℕ) (s : Store) → view (record_event at email entry s) ≡ view s)
    → Stays may view (log_event b email entry)
unfolding log_event now
Stays-log_event may view b email entry h k =
    Stays-bind _ _ (Stays-perform reads_clock (λ t. some (b.clock t)) h)
      (λ at. Stays-modify _ (k at))
