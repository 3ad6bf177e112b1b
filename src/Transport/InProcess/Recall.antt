-- ===== src/Transport/InProcess/Recall.antt =====
-- Accepted in-process work is held until it is forgotten.
use hedloom.Base.{◌≡◌, refl, String, true, Option, none, some, [], ◌∷◌, subst, eq_refl, arith}
use hedloom.Json.{str, obj, Fields, end, field, get}
use hedloom.Transport.{
  Observation, is_conclusive, Submission, accepted, refused, raised, found, not_found,
}
use hedloom.Transport.InProcess.{
  Implementations, Results, Ending, returned, threw, submit, discover, poll, forget, result_of, run,
  observation_of, arguments_of,
}

-- The handle leads to a final reading, and discovery finds the work.
pub record Held (implementations : Implementations) (tail_of : String → String) (identity : String)
    (handle : Fields) (rs : Results) : Type 0 where
  pub reading : Observation
  pub polled : (poll implementations tail_of (obj handle) rs).0 ≡ some reading
  pub final : is_conclusive reading.state ≡ true
  pub known : (h : Fields) × ((discover implementations tail_of identity rs).0 ≡ found h)

module _ (implementations : Implementations) (tail_of : String → String) (identity : String)
    (bundle : Fields) where
  observation_final : (e : Ending) → is_conclusive (observation_of tail_of e).state ≡ true
  observation_final (returned v) = refl
  observation_final (threw a b) = refl

  abbrev IsHeld : Submission × Results → Type 0
  IsHeld (accepted handle, rs) = Held implementations tail_of identity handle rs
  IsHeld (refused e, rs) = Unit
  IsHeld (raised e, rs) = Unit

  run-IsHeld :
      (o : Option (Fields → Ending)) (rs : Results)
      → IsHeld (run implementations tail_of identity bundle o rs)
  unfolding poll discover
  run-IsHeld none rs = tt
  run-IsHeld (some f) rs =
      let ending = f (arguments_of implementations tail_of bundle) in
      record {
        reading = observation_of tail_of ending;
        polled = rw (eq_refl identity) refl;
        final = observation_final ending;
        known = (
          field "transport" (str "in-process") (field "identity" (str identity) end),
          rw (eq_refl identity) refl,
        );
      }

  run-Held :
      (o : Option (Fields → Ending)) (rs rs' : Results) (handle : Fields)
      → run implementations tail_of identity bundle o rs ≡ (accepted handle, rs')
      → Held implementations tail_of identity handle rs'
  run-Held o rs rs' handle h = subst IsHeld h (run-IsHeld o rs)

  -- Work that `submit` accepts has a final reading under the handle it returns, and `discover` finds
  -- it, so a controller that lost the receipt does not submit it again.
  pub submit-Held :
      (rs rs' : Results) (handle : Fields)
      → submit implementations tail_of identity bundle rs ≡ (accepted handle, rs')
      → Held implementations tail_of identity handle rs'
  unfolding submit
  submit-Held rs rs' handle h = run-Held (implementations (get "operation" bundle)) rs rs' handle h

forgotten : (identity : String) (rs : Results) → result_of identity (forget identity rs) ≡ none
unfolding forget
forgotten identity [] = refl
forgotten identity (r ∷ rs) = ground (arith, forgotten identity rs)

-- After `forget` the work is not discovered any more, which the transport declares authoritative.
pub forgotten_work_is_absent :
    (implementations : Implementations) (tail_of : String → String) (identity : String)
    (rs : Results)
    → (discover implementations tail_of identity (forget identity rs)).0 ≡ not_found
unfolding discover
forgotten_work_is_absent implementations tail_of identity rs = rw (forgotten identity rs) refl
