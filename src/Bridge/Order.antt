-- ===== src/Bridge/Order.antt =====
-- Calls made one at a time, in list order.
use wizteros.Common.{Option-cases, ◌≡◌, refl, ap, ◌⊎◌, inl, inr, Option, List, [], ◌∷◌, ◌++◌}
use wizteros.Bridge.Types.{Call, Trace}
use wizteros.Bridge.Run.{
  World, call_failed, ok, err, M, pure, answered, perform, continue, ◌>>=◌, each_in_order,
}

-- The trace after a call for each item, in list order.
abbrev pub calls_for : {A : Type 0} → (A → Call) → List A → Trace → Trace
calls_for call [] t = t
calls_for call (x ∷ xs) t = calls_for call xs (call x ∷ t)

module _ {A : Type 0} (call : A → Call) (answer : A → Trace → Option (Unit {0})) where
  abbrev pub run_each : List A → M (Unit {0})
  run_each xs = each_in_order xs (λ x. perform (call x) (answer x))

  -- It returned after a call for every item, or a call threw: then the calls made are those for the
  -- items before it, and it. The store is as it was.
  abbrev pub IsPrefix : List A → World → Type 0
  IsPrefix xs w =
      ((run_each xs w) ≡ (ok tt, record w { calls = calls_for call xs w.calls }))
      ⊎ ((done : List A) × (failed : A) × (rest : List A) × (xs ≡ done ++ failed ∷ rest)
          × ((run_each xs w)
              ≡ (err call_failed, record w { calls = call failed ∷ calls_for call done w.calls })))

  -- Calls over a list go out one at a time in list order, and stop at the first that throws.
  pub each_in_order-prefix : (xs : List A) (w : World) → IsPrefix xs w
  unfolding each_in_order perform answered ◌>>=◌ continue pure
  each_in_order-prefix [] w = inl refl
  each_in_order-prefix (x ∷ xs) w = elim (Option-cases (answer x w.calls)) [
    | inl e ↦ inr ([], x, xs, refl, rw e refl)
    | inr (a, e) ↦ elim (each_in_order-prefix xs (record w { calls = call x ∷ w.calls })) [
      | inl h ↦ inl (rw e h)
      | inr (done, failed, rest, split, h) ↦
          inr (x ∷ done, failed, rest, ap (λ t. x ∷ t) split, rw e h)
    ]
  ]
