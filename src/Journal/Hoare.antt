-- ===== src/Journal/Hoare.antt =====
-- Contracts of methods that may raise: `Triple P m I Q` says that from a state with `P`, `m` ends
-- with `Q` of its result if it returns, and with `I` if it raises or the process is killed.
use hedloom.Base.{Bool, true, false, ◌≡◌, refl, if◌then◌else◌}
use hedloom.Result.{Error, Result, ok, err}
use hedloom.Journal.World.{World, Exec, pure, raise, lift, gets, modify, ◌>>=◌, resume}

module _ {S A : Type 0} where
  abbrev pub Ends : (World S → Type 0) → (A → World S → Type 0) → Result A × World S → Type 0
  Ends I Q (ok a, w) = Q a w
  Ends I Q (err e, w) = I w

  pub record Triple (P : World S → Type 0) (m : Exec S A) (I : World S → Type 0)
      (Q : A → World S → Type 0) : Type 0 where
    pub run : (w : World S) → P w → Ends I Q (m w)

module _ {S A : Type 0} (I : World S → Type 0) (Q : A → World S → Type 0) where
  lift-ends :
      (r : Result A) (w : World S) → I w → ((a : A) → r ≡ ok a → Q a w) → Ends I Q (lift r w)
  unfolding lift
  lift-ends (ok a) w i h = h a refl
  lift-ends (err e) w i h = i

module _ {S A : Type 0} {P I : World S → Type 0} {Q : A → World S → Type 0} where
  pub Triple-pure : (a : A) → ((w : World S) → P w → Q a w) → Triple P (pure a) I Q
  unfolding pure
  Triple-pure a h = record { run = h }

  pub Triple-raise : (e : Error) → ((w : World S) → P w → I w) → Triple P (raise e) I Q
  unfolding raise
  Triple-raise e h = record { run = h }

  pub Triple-gets : (f : World S → A) → ((w : World S) → P w → Q (f w) w) → Triple P (gets f) I Q
  unfolding gets
  Triple-gets f h = record { run = h }

  pub Triple-lift :
      (r : Result A)
      → ((w : World S) → P w → I w)
      → ((a : A) (w : World S) → r ≡ ok a → P w → Q a w)
      → Triple P (lift r) I Q
  Triple-lift r i h = record { run = λ w p. lift-ends I Q r w (i w p) (λ a e. h a w e p) }

  -- A method that reads, may raise, and changes nothing.
  pub Triple-ask :
      (f : World S → Result A)
      → ((w : World S) → P w → I w)
      → ((a : A) (w : World S) → f w ≡ ok a → P w → Q a w)
      → Triple P (λ w. (f w, w)) I Q
  unfolding lift
  Triple-ask f i h = record { run = λ w p. lift-ends I Q (f w) w (i w p) (λ a e. h a w e p) }

  pub Triple-if :
      (b : Bool) (m n : Exec S A)
      → (b ≡ true → Triple P m I Q)
      → (b ≡ false → Triple P n I Q)
      → Triple P (if b then m else n) I Q
  Triple-if true m n km kn = km refl
  Triple-if false m n km kn = kn refl

  pub Triple-from :
      {P' : World S → Type 0} {m : Exec S A}
      → ((w : World S) → P w → P' w)
      → Triple P' m I Q
      → Triple P m I Q
  Triple-from f t = record { run = λ w p. t.run w (f w p) }

  -- An existential in the precondition is opened.
  pub Triple-open :
      {X : World S → Type 0} {m : Exec S A}
      → ((w : World S) → P w → X w × ((v : World S) → X v → Ends I Q (m v)))
      → Triple P m I Q
  Triple-open f = record { run = λ w p. let (x, g) = f w p in g w x }

module _ {S A B : Type 0} {I : World S → Type 0} {Q : A → World S → Type 0}
    {R : B → World S → Type 0} where
  resume-ends :
      (f : A → Exec S B)
      → ((a : A) → Triple (Q a) (f a) I R)
      → (r : Result A × World S) → Ends I Q r
      → Ends I R (resume f r.0 r.1)
  resume-ends f k (ok a, w) q = (k a).run w q
  resume-ends f k (err e, w) q = q

module _ {S A B : Type 0} {P I : World S → Type 0} {Q : A → World S → Type 0}
    {R : B → World S → Type 0} where
  pub Triple-bind :
      {m : Exec S A} {f : A → Exec S B}
      → Triple P m I Q
      → ((a : A) → Triple (Q a) (f a) I R)
      → Triple P (m >>= f) I R
  unfolding ◌>>=◌
  Triple-bind {m} {f} t k = record { run = λ w p. resume-ends f k (m w) (t.run w p) }

module _ {S : Type 0} {P I : World S → Type 0} {R : Unit {0} → World S → Type 0} where
  pub Triple-modify :
      (f : World S → World S) → ((w : World S) → P w → R tt (f w)) → Triple P (modify f) I R
  unfolding modify
  Triple-modify f h = record { run = h }
