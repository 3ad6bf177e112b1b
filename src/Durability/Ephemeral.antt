-- ===== src/Durability/Ephemeral.antt =====
-- An ephemeral execution in the calling process leaves nothing behind.
use hedloom.Base.{◌≡◌, refl, String, Option, none, some, [], ◌∷◌, arith}
use hedloom.Json.{Fields, get}
use hedloom.Transport.InProcess.{
  Implementations, Results, Ending, in_process, submit, poll, forget, result_of, run,
}
use hedloom.Attempt.Env.{Env}
use hedloom.Durability.{execute_ephemeral, ephemeral_submitted}

forgets : (key : String) (rs : Results) → result_of key (forget key rs) ≡ none
unfolding forget
forgets key [] = refl
forgets key (r ∷ rs) = ground (arith, forgets key rs)

module _ (env : Env Results) (implementations : Implementations) (tail_of : String → String)
    (key : String) (bundle : Fields) where
  abbrev pub in_this_process : Env Results
  in_this_process = record env { transport = in_process implementations tail_of }

  run-forgotten :
      (o : Option (Fields → Ending)) (rs : Results)
      → result_of key rs ≡ none
      → result_of key
          (ephemeral_submitted in_this_process forget key
            (run implementations tail_of key bundle o rs)).1
        ≡ none
  unfolding in_process poll
  run-forgotten none rs fresh = fresh
  run-forgotten (some f) rs fresh = forgets key _

  -- After an ephemeral execution under a fresh key, in the calling process, no result is retained under
  -- that key, whether the work returned, raised or was refused.
  pub ephemeral_leaves_nothing :
      (rs : Results)
      → result_of key rs ≡ none
      → result_of key (execute_ephemeral in_this_process forget key bundle rs).1 ≡ none
  unfolding execute_ephemeral in_process submit
  ephemeral_leaves_nothing rs fresh =
      run-forgotten (implementations (get "operation" bundle)) rs fresh
