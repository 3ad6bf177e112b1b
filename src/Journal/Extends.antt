-- ===== src/Journal/Extends.antt =====
-- What no method of `AttemptJournal` takes back: events and manifests. `Adds m`: whatever `m` does, also
-- when it raises or the process is killed in it, it only adds to them.
pub mod Store
use hedloom.Base.{
  ℕ, zero, suc, ◌+◌, ◌≡◌, refl, sym, ap, ◌∙◌, String, Bool, true, false, not, Option, none, some,
  is_some, List, [], ◌∷◌, ◌++◌, append-nil, append_assoc, ◌==◌, ==_iff, Bool-cases, if◌then◌else◌,
  inl, inr, subst, arith, str_eq,
}
use hedloom.Json.{Fields}
use hedloom.Result.{Error, Result, ok, err, guard}
use hedloom.Journal.Types.{EventName, JournalEvent, TryState, AttemptState, current}
use hedloom.Journal.World.{
  Line, event_line, Document, document, Disk, World, Exec, pure, raise, lift, gets, modify, durable,
  write, burn, now, ◌>>=◌, ◌>>◌, resume,
}
use hedloom.Journal.Disk.{append_line, append_to, set_manifest, set_standing, created_record}

pub record Extends (d d' : Disk) : Type 0 where
  pub more : List Line
  pub lines : d'.lines ≡ d.lines ++ more
  pub manifests : (n : ℕ) (doc : Document) → d.manifest n ≡ some doc → d'.manifest n ≡ some doc

pub Extends-refl : (d : Disk) → Extends d d
Extends-refl d = record { more = []; lines = sym (append-nil d.lines); manifests = λ n doc h. h }

pub Extends-trans : {a b c : Disk} → Extends a b → Extends b c → Extends a c
Extends-trans {a} {b} {c} x y = record {
  more = x.more ++ y.more;
  lines = y.lines ∙ ap (λ ls. ls ++ y.more) x.lines ∙ append_assoc a.lines x.more y.more;
  manifests = λ n doc h. y.manifests n doc (x.manifests n doc h);
}

append_to-more :
    (tail : Option Line) (l : Line) (ls : List Line)
    → (more : List Line) × (append_to tail l ls ≡ ls ++ more)
append_to-more none l ls = (l ∷ [], refl)
append_to-more (some Line.blank) l ls = (l ∷ [], refl)
append_to-more (some Line.garbage) l ls = (Line.garbage ∷ [], refl)
append_to-more (some Line.shapeless) l ls = (Line.garbage ∷ [], refl)
append_to-more (some (event_line e)) l ls = (Line.garbage ∷ [], refl)

pub Extends-append : (e : JournalEvent) (d : Disk) → Extends d (append_line e d)
unfolding append_line
Extends-append e d =
    let (more, added) = append_to-more d.tail (event_line e) d.lines in
    record { more = more; lines = added; manifests = λ n doc h. h }

pub Extends-manifest :
    (n : ℕ) (doc : Fields) (d : Disk)
    → is_some (d.manifest n) ≡ false
    → Extends d (set_manifest n doc d)
unfolding set_manifest
Extends-manifest n doc d absent = record {
  more = [];
  lines = sym (append-nil d.lines);
  manifests = λ m old h. elim (Bool-cases (m == n)) [
    | inl e ↦ absurd (
        grind
          (arith, subst (λ k. is_some (d.manifest k) ≡ false) (sym ((==_iff m n).0 e)) absent, h))
    | inr e ↦ rw e h
  ];
}

module _ {S A : Type 0} where
  pub record Adds (m : Exec S A) : Type 0 where
    pub run : (w : World S) → Extends w.disk (m w).1.disk

  pub Adds-pure : (a : A) → Adds (pure {S = S} a)
  unfolding pure
  Adds-pure a = record { run = λ w. Extends-refl w.disk }

  pub Adds-raise : (e : Error) → Adds (raise {S = S} {A = A} e)
  unfolding raise
  Adds-raise e = record { run = λ w. Extends-refl w.disk }

  pub Adds-lift : (r : Result A) → Adds (lift {S = S} r)
  unfolding lift
  Adds-lift r = record { run = λ w. Extends-refl w.disk }

  pub Adds-gets : (f : World S → A) → Adds (gets f)
  unfolding gets
  Adds-gets f = record { run = λ w. Extends-refl w.disk }

  pub Adds-if : (b : Bool) (m n : Exec S A) → Adds m → Adds n → Adds (if b then m else n)
  Adds-if true m n x y = x
  Adds-if false m n x y = y

module _ {S A B : Type 0} where
  resume-Extends :
      (d : Disk) (f : A → Exec S B)
      → ((a : A) → Adds (f a))
      → (r : Result A × World S) → Extends d r.1.disk
      → Extends d (resume f r.0 r.1).1.disk
  resume-Extends d f k (ok a, w) x = Extends-trans x ((k a).run w)
  resume-Extends d f k (err e, w) x = x

  pub Adds-bind :
      (m : Exec S A) (f : A → Exec S B) → Adds m → ((a : A) → Adds (f a)) → Adds (m >>= f)
  unfolding ◌>>=◌
  Adds-bind m f x k = record { run = λ w. resume-Extends w.disk f k (m w) (x.run w) }

  -- A first step for which more is known.
  pub bind-Extends :
      (m : Exec S A) (f : A → Exec S B) (w : World S)
      → Extends w.disk (m w).1.disk
      → ((a : A) → Adds (f a))
      → Extends w.disk ((m >>= f) w).1.disk
  unfolding ◌>>=◌
  bind-Extends m f w x k = resume-Extends w.disk f k (m w) x

module _ {S : Type 0} where
  pub Adds-modify :
      (f : World S → World S) → ((w : World S) → Extends w.disk (f w).disk) → Adds (modify f)
  unfolding modify
  Adds-modify f h = record { run = h }

  burn-Extends :
      (d : Disk) (fuse : Option ℕ) (f : World S → World S) (w : World S)
      → Extends d w.disk
      → Extends d (f w).disk
      → Extends d (burn fuse f w).1.disk
  burn-Extends d none f w x y = y
  burn-Extends d (some zero) f w x y = x
  burn-Extends d (some (suc k)) f w x y = y

  pub Adds-durable :
      (f : World S → World S) → ((w : World S) → Extends w.disk (f w).disk) → Adds (durable f)
  unfolding durable
  Adds-durable f h = record {
    run = λ w. burn-Extends w.disk w.fuse f w (Extends-refl w.disk) (h w);
  }

  pub write-Extends :
      (f : Disk → Disk) (w : World S)
      → Extends w.disk (f w.disk)
      → Extends w.disk (write f w).1.disk
  unfolding write durable
  write-Extends f w x = burn-Extends w.disk w.fuse _ w (Extends-refl w.disk) x

  pub Adds-same : {A : Type 0} (m : Exec S A) → ((w : World S) → (m w).1.disk ≡ w.disk) → Adds m
  Adds-same m h = record { run = λ w. rw (h w) (Extends-refl w.disk) }

pub ruleset adds_rules = (Adds-pure, Adds-raise, Adds-lift, Adds-gets, Adds-if, Adds-bind)
