-- ===== src/Flow/Accepted/Distinct.antt =====
-- `_unique_index` and `_check_named_uniqueness` of flow/src/hedloom_flow/model.py report nothing only where
-- no key comes twice.
use mathlib.Core.List.{Memᴰ}
use mathlib.Core.List.Memᴰ.{head, tail}
use hedloom.Base.{
  ℕ, suc, String, true, false, ◌≡◌, refl, sym, ap, ◌∙◌, List, [], ◌∷◌, ◌||◌, arith, any, map,
  str_eq, eq_iff, Bool-cases, inl, inr,
}
use hedloom.Flow.Graph.{mem}
use hedloom.Flow.Check.{Code, Place, nth, issue_if, repeated, unique_names}
use hedloom.Flow.Accepted.{append-nil-inv, issue_if-nil}

abbrev pub Distinct : List String → Type 0
Distinct [] = Unit
Distinct (k ∷ ks) = (mem k ks ≡ false) × Distinct ks

any-mem : (k : String) (seen : List String) → any (str_eq k) seen ≡ mem k seen
any-mem k [] = refl
any-mem k (s ∷ ss) = ground (arith, eq_iff k s, eq_iff s k, any-mem k ss)

true≢false : true ≡ false → ⊥
true≢false h = cc

later :
    (code : Code) (path : Place) (i : ℕ) (seen ks : List String)
    → repeated str_eq code path i seen ks ≡ []
    → (x : String) → mem x seen ≡ true
    → mem x ks ≡ false
later code path i seen [] h x m = refl
later code path i seen (k ∷ ks) h x m =
    let both = append-nil-inv (issue_if (any (str_eq k) seen) code (nth path i)) _ h in
    let fresh = sym (any-mem k seen) ∙ issue_if-nil _ code (nth path i) both.0 in
    elim (Bool-cases (str_eq k x)) [
      | inl p ↦
          absurd (true≢false (sym m ∙ (ap (λ z. mem z seen) (sym ((eq_iff k x).0 p)) ∙ fresh)))
      | inr p ↦
          ap (λ b. b || mem x ks) p
          ∙ later code path (suc i) (k ∷ seen) ks both.1 x (ground (arith, m, p))
    ]

repeated-Distinct :
    (code : Code) (path : Place) (i : ℕ) (seen ks : List String)
    → repeated str_eq code path i seen ks ≡ []
    → Distinct ks
repeated-Distinct code path i seen [] h = tt
repeated-Distinct code path i seen (k ∷ ks) h =
    let rest = (append-nil-inv (issue_if (any (str_eq k) seen) code (nth path i)) _ h).1 in
    (
      later code path (suc i) (k ∷ seen) ks rest k (ground (arith, eq_iff k k)),
      repeated-Distinct code path (suc i) (k ∷ seen) ks rest,
    )

pub unique_names-Distinct :
    (code : Code) (path : Place) (ks : List String) → unique_names code path ks ≡ [] → Distinct ks
unique_names-Distinct code path ks h = repeated-Distinct code path 0 [] ks h

pub map-mem {ℓ} :
    {A : Type ℓ} (f : A → String) (xs : List A) {x : A} → Memᴰ x xs → mem (f x) (map f xs) ≡ true
map-mem f [] m = elim m [ ]
map-mem f (y ∷ ys) {x} (head e) = ground (arith, eq_iff (f y) (f x), ap f e)
map-mem f (y ∷ ys) {x} (tail m) = ground (arith, map-mem f ys m)
