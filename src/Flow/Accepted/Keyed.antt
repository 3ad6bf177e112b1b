-- ===== src/Flow/Accepted/Keyed.antt =====
-- In an accepted plan what carries an authored key has the identity that is derived from it, and no two of
-- them share a key in one scope.
use mathlib.Core.List.{Memᴰ}
use mathlib.Core.List.Memᴰ.{head, tail}
use hedloom.Base.{
  String, true, false, not, ◌≡◌, sym, ap, subst, ◌∙◌, some, List, [], ◌∷◌, arith, any, str_eq,
  eq_iff, Bool-cases, Option-cases, inl, inr, if◌then◌else◌,
}
use hedloom.Flow.Text.{matches_id}
use hedloom.Flow.Values.{Plan}
use hedloom.Flow.Check.{issue_if, under, duplicate_authored_key}
use hedloom.Flow.Check.Keys.{
  keyed_plan_id, KeyUse, ScopedKey, same_scoped, mismatch, key_issues, key_seen, keys_issues,
}
use hedloom.Flow.Validate.{key_uses, valid, validate}
use hedloom.Flow.Accepted.{append-nil-inv, issue_if-nil, not-false, validate-Accepted}

-- A key in the right syntax, of an identity that is derived from it, which is not met before.
record Derived (sha256 : String → String) (seen : List ScopedKey) (u : KeyUse) (key : String)
    : Type 0 where
  pub lexical : matches_id key ≡ true
  pub derived : u.id ≡ keyed_plan_id sha256 u.kind u.scope key
  pub fresh : any (same_scoped (u.scope, key)) seen ≡ false

key_issues-Derived :
    (sha256 : String → String) (seen : List ScopedKey) (u : KeyUse) (key : String)
    → key_issues sha256 seen u key ≡ []
    → Derived sha256 seen u key
key_issues-Derived sha256 seen u key h = elim (Bool-cases (matches_id key)) [
  | inr p ↦ absurd (ground (arith, p, h))
  | inl p ↦
      let fresh = any (same_scoped (u.scope, key)) seen in
      let both =
        append-nil-inv (issue_if fresh duplicate_authored_key (under u.path "authored_key"))
          (issue_if (not (str_eq u.id (keyed_plan_id sha256 u.kind u.scope key))) (mismatch u.kind)
            (under u.path "id"))
          (ground (arith, p, h)) in
      record {
        lexical = p;
        derived =
            (eq_iff u.id _).0
              (not-false _ (issue_if-nil _ (mismatch u.kind) (under u.path "id") both.1));
        fresh = issue_if-nil fresh duplicate_authored_key (under u.path "authored_key") both.0;
      }
]

-- The keys that are seen stay seen.
Grows : List ScopedKey → List ScopedKey → Type 0
Grows seen later =
    (p : ScopedKey) → any (same_scoped p) seen ≡ true → any (same_scoped p) later ≡ true

rest_of :
    (sha256 : String → String) (seen : List ScopedKey) (u : KeyUse) (us : List KeyUse)
    → keys_issues sha256 seen (u ∷ us) ≡ []
    → (later : List ScopedKey) × (keys_issues sha256 later us ≡ []) × Grows seen later
unfolding Grows
rest_of sha256 seen u us h = elim (Option-cases u.key) [
  | inl p ↦ (seen, ground (arith, p, h), λ k m. m)
  | inr (k, p) ↦ (
    key_seen seen u k,
    (append-nil-inv (key_issues sha256 seen u k) _ (ground (arith, p, h))).1,
    λ z m. ground (arith, m),
  )
]

keys_issues-Derived :
    (sha256 : String → String) (seen : List ScopedKey) (us : List KeyUse)
    → keys_issues sha256 seen us ≡ []
    → (u : KeyUse) → Memᴰ u us
    → (key : String) → u.key ≡ some key
    → (before : List ScopedKey) × Derived sha256 before u key × Grows seen before
unfolding Grows
keys_issues-Derived sha256 seen [] h u m key e = elim m [ ]
keys_issues-Derived sha256 seen (w ∷ ws) h u (head q) key e = (
  seen,
  subst (λ z. Derived sha256 seen z key) (sym q)
      (key_issues-Derived sha256 seen w key
        (append-nil-inv (key_issues sha256 seen w key) (keys_issues sha256 (key_seen seen w key) ws)
          (ground (arith, h, ap KeyUse.key (sym q) ∙ e))).0),
  λ k m. m,
)
keys_issues-Derived sha256 seen (w ∷ ws) h u (tail m) key e =
    let rest = rest_of sha256 seen w ws h in
    let found = keys_issues-Derived sha256 rest.0 ws rest.1 u m key e in
    (found.0, found.1, λ k n. found.2 k (rest.2 k n))

-- No key is used twice in a scope.
abbrev pub Apart : List KeyUse → Type 0
Apart [] = Unit
Apart (u ∷ us) =
    ((key : String)
      → u.key ≡ some key
      → (w : KeyUse) → Memᴰ w us
      → w.key ≡ some key
      → same_scoped (w.scope, key) (u.scope, key) ≡ false)
    × Apart us

first_of_rest :
    (sha256 : String → String) (seen : List ScopedKey) (u : KeyUse) (us : List KeyUse)
    (key : String)
    → keys_issues sha256 seen (u ∷ us) ≡ []
    → u.key ≡ some key
    → keys_issues sha256 ((u.scope, key) ∷ seen) us ≡ []
first_of_rest sha256 seen u us key h e =
    let both =
      append-nil-inv (key_issues sha256 seen u key) (keys_issues sha256 (key_seen seen u key) us)
        (ground (arith, h, e)) in
    let derived = key_issues-Derived sha256 seen u key both.0 in
    ap (λ b. keys_issues sha256 (if b then (u.scope, key) ∷ seen else seen) us)
      (sym derived.lexical)
    ∙ both.1

keys_issues-Apart :
    (sha256 : String → String) (seen : List ScopedKey) (us : List KeyUse)
    → keys_issues sha256 seen us ≡ []
    → Apart us
unfolding Grows
keys_issues-Apart sha256 seen [] h = tt
keys_issues-Apart sha256 seen (u ∷ us) h = (
  λ key e w m f.
      let found =
        keys_issues-Derived sha256 ((u.scope, key) ∷ seen) us
          (first_of_rest sha256 seen u us key h e) w m key f in
      elim (Bool-cases (same_scoped (w.scope, key) (u.scope, key))) [
        | inr p ↦ p
        | inl p ↦ absurd (ground (arith, found.1.fresh, found.2 (w.scope, key) (ground (arith, p))))
      ],
  let rest = rest_of sha256 seen u us h in keys_issues-Apart sha256 rest.0 us rest.1,
)

-- In a plan that validates what carries an authored key has the identity that is derived from its kind, its
-- scope and that key, and no key is used twice in a scope.
pub valid_keys_are_derived :
    (sha256 : String → String) (plan result : Plan)
    → validate sha256 plan ≡ valid result
    → Apart (key_uses plan)
      × ((u : KeyUse)
          → Memᴰ u (key_uses plan)
          → (key : String) → u.key ≡ some key
          → u.id ≡ keyed_plan_id sha256 u.kind u.scope key)
valid_keys_are_derived sha256 plan result h =
    let keys = (validate-Accepted sha256 plan result h).keys in
    (
      keys_issues-Apart sha256 [] (key_uses plan) keys,
      λ u m key e. (keys_issues-Derived sha256 [] (key_uses plan) keys u m key e).1.derived,
    )
