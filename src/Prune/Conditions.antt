-- ===== src/Prune/Conditions.antt =====
-- What the conditions of a rule of prune.py ask.
use hedloom.Base.{
  ℕ, ◌+◌, ◌≤◌, ◌≡◌, refl, sym, Bool, not, ◌&&◌, str_eq, eq_iff, Bool-cases, ◌⊎◌, inl, inr, String,
  true, false, Option, none, some, List, [], ◌∷◌, ap, ◌∙◌, arith,
}
use mathlib.Core.List.{Memᴰ}
use mathlib.Core.List.Memᴰ.{head, tail}
use hedloom.Json.{Json, str}
use hedloom.Result.{ok, >>=?-eq-ok}
use hedloom.Prune.Policy.{RetentionRule, names_outcome}
use hedloom.Prune.Units.{duration, size}
use hedloom.Prune.Survey.{Site, outcome_in, is_none_named, too_young, too_small, microseconds}

-- The rule names no outcome, or the one of the try.
abbrev pub Names : RetentionRule → Json → Type 0
Names rule outcome = (rule.outcome ≡ []) ⊎ ((o : String) × (outcome ≡ str o) × Memᴰ o rule.outcome)

-- So many bytes are as many as the rule asks.
abbrev pub IsLarge : ℕ → Option String → Type 0
IsLarge bytes none = Unit
IsLarge bytes (some text) = (s : ℕ) × (size text ≡ ok s) × (s ≤ bytes)

pub outcome-Names :
    (rule : RetentionRule) (outcome : Json)
    → (not (is_none_named rule.outcome) && not (outcome_in outcome rule.outcome)) ≡ false
    → Names rule outcome
outcome-Names rule outcome h = named rule.outcome refl h
  where
    listed : (o : String) (os : List String) → names_outcome o os ≡ true → Memᴰ o os
    listed o [] e = absurd (ground (arith, e))
    listed o (x ∷ xs) e = elim (Bool-cases (str_eq x o)) [
      | inl q ↦ head (sym ((eq_iff x o).0 q))
      | inr q ↦ tail (listed o xs (ground (arith, q, e)))
    ]

    among :
        (j : Json) (os : List String)
        → outcome_in j os ≡ true
        → (o : String) × (j ≡ str o) × Memᴰ o os
    among (str o) os e = (o, refl, listed o os e)
    among Json.null os e = absurd (ground (arith, e))
    among (Json.bool b) os e = absurd (ground (arith, e))
    among (Json.nat n) os e = absurd (ground (arith, e))
    among (Json.neg n) os e = absurd (ground (arith, e))
    among (Json.real r) os e = absurd (ground (arith, e))
    among (Json.arr xs) os e = absurd (ground (arith, e))
    among (Json.obj fs) os e = absurd (ground (arith, e))

    named :
        (os : List String)
        → rule.outcome ≡ os
        → (not (is_none_named rule.outcome) && not (outcome_in outcome rule.outcome)) ≡ false
        → Names rule outcome
    named [] e g = inl e
    named (o ∷ os) e g = inr (
        among outcome rule.outcome (
          positive _
            (sym (ap (λ z. not (is_none_named z) && not (outcome_in outcome rule.outcome)) e) ∙ g)))
      where
        positive : (b : Bool) → not b ≡ false → b ≡ true
        positive true k = refl
        positive false k = absurd (ground (arith, k))

pub small-IsLarge : (bytes : ℕ) (o : Option String) → too_small bytes o ≡ ok false → IsLarge bytes o
small-IsLarge bytes none h = tt
small-IsLarge bytes (some text) h =
    let (s, read, rest) = >>=?-eq-ok (size text) _ h in (s, read, ground (arith, rest))

module _ (site : Site) where
  -- What was published at this time is as old as the rule asks.
  abbrev pub IsOld : ℕ → Option String → Type 0
  IsOld published none = Unit
  IsOld published (some text) =
      (d : ℕ) × (duration text ≡ ok d) × (published + microseconds d ≤ site.clock)

  pub young-IsOld :
      (published : ℕ) (o : Option String)
      → too_young site published o ≡ ok false
      → IsOld published o
  young-IsOld published none h = tt
  young-IsOld published (some text) h =
      let (d, read, rest) = >>=?-eq-ok (duration text) _ h in (d, read, ground (arith, rest))
