-- ===== src/Prune/Promises.antt =====
-- What a survey of prune.py promises of each record, and what its removals free.
use hedloom.Base.{
  ℕ, ◌≡◌, refl, sym, ap, subst, ◌∙◌, String, Option, none, some, List, [], ◌∷◌, map, arith,
  Bool-cases, ◌⊎◌, inl, inr,
}
use mathlib.Core.List.{Memᴰ}
use mathlib.Core.List.Memᴰ.{head, tail}
use hedloom.Json.{Fields, get}
use hedloom.Result.{ok, ◌>>=?◌, >>=?-eq-ok}
use hedloom.Journal.Types.{TryState, AttemptState, is_terminal}
use hedloom.Journal.World.{Disk}
use hedloom.Journal.Disk.{manifest_of, fold_disk, standing_of}
use hedloom.Prune.Policy.{RetentionPolicy}
use hedloom.Prune.Survey.{
  Site, Candidate, Skip, Verdict, candidate, skip, verdict, verdicts, survey_record, candidates_of,
  record_of_tries, no_try, measured_verdict, published_verdict, text_is, is_standing, is_pinned,
  timestamp,
}
use hedloom.Prune.Protected.{Selected, Selected-verdict}

-- The try that a verdict is about.
abbrev pub try_of : Verdict → Option ℕ
try_of (candidate c) = some c.try_number
try_of (skip s) = s.try_number

ok-injective : {A : Type 0} (a b : A) → ok a ≡ ok b → a ≡ b
ok-injective a b h = cc

module _ (site : Site) (policy : RetentionPolicy) (floor : ℕ) (identity : String) (disk : Disk)
    (standing : Option Fields) (state : AttemptState) where
  -- The candidate comes from a try among `ts` that nothing protects.
  abbrev pub Spent : List TryState → Candidate → Type 0
  Spent ts c =
      (t : TryState) × Memᴰ t ts × Selected site policy floor identity disk standing state t c

  abbrev Judged : List TryState → List Verdict → Type 0
  Judged [] [] = Unit
  Judged (t ∷ ts) (v ∷ vs) =
      (verdict site policy floor identity disk standing state t ≡ ok v) × Judged ts vs
  Judged _ _ = ⊥

  verdicts-Judged :
      (ts : List TryState) (vs : List Verdict)
      → verdicts site policy floor identity disk standing state ts ≡ ok vs
      → Judged ts vs
  unfolding verdicts
  verdicts-Judged [] vs h = subst (Judged []) (ok-injective _ _ h) tt
  verdicts-Judged (t ∷ ts) vs h =
      let (v, first, rest) =
        >>=?-eq-ok (verdict site policy floor identity disk standing state t) _ h in
      let (ws, others, all) =
        >>=?-eq-ok (verdicts site policy floor identity disk standing state ts) _ rest in
      subst (Judged (t ∷ ts)) (ok-injective _ _ all) (first, verdicts-Judged ts ws others)

  later : {t : TryState} {ts : List TryState} (c : Candidate) → Spent ts c → Spent (t ∷ ts) c
  later c (t, there, s) = (t, tail there, s)

  Judged-Spent :
      (ts : List TryState) (vs : List Verdict)
      → Judged ts vs
      → (c : Candidate) → Memᴰ c (candidates_of vs)
      → Spent ts c
  Judged-Spent [] [] j c there = elim there [ ]
  Judged-Spent [] (v ∷ vs) j c there = absurd j
  Judged-Spent (t ∷ ts) [] j c there = absurd j
  Judged-Spent (t ∷ ts) (candidate d ∷ vs) j c (head e) = (
    t,
    head refl,
    Selected-verdict site policy floor identity disk standing state t c
        (j.0 ∙ ap (λ x. ok (candidate x)) (sym e)),
  )
  Judged-Spent (t ∷ ts) (candidate d ∷ vs) j c (tail there) =
      later c (Judged-Spent ts vs j.1 c there)
  Judged-Spent (t ∷ ts) (skip s ∷ vs) j c there = later c (Judged-Spent ts vs j.1 c there)

module _ (site : Site) (policy : RetentionPolicy) (floor : ℕ) (identity : String) (disk : Disk)
    (standing : Option Fields) (state : AttemptState) (t : TryState) where
  skipped-measured :
      (manifest : Fields) (published : ℕ) (s : Skip)
      → measured_verdict site policy floor identity state t manifest published ≡ ok (skip s)
      → s.try_number ≡ some t.number
  unfolding measured_verdict
  skipped-measured manifest published s h = ground arith

  skipped-published :
      (o : Option Fields) (s : Skip)
      → published_verdict site policy floor identity state t o ≡ ok (skip s)
      → s.try_number ≡ some t.number
  skipped-published none s h = ground arith
  skipped-published (some manifest) s h =
      let (published, parsed, rest) =
        >>=?-eq-ok (timestamp site (get "published_at" manifest)) _ h in
      ground (arith, skipped-measured manifest published s)

  skipped-early :
      (s : Skip)
      → verdict site policy floor identity disk standing state t ≡ ok (skip s)
      → (s.try_number ≡ some t.number)
        ⊎ ((manifest_of t.number disk >>=? published_verdict site policy floor identity state t)
            ≡ ok (skip s))
  unfolding verdict
  skipped-early s h = elim (Bool-cases (is_terminal t)) [
    | inr e ↦ inl (ground arith)
    | inl e ↦ elim (Bool-cases (text_is "unreconciled" t.outcome)) [
      | inl f ↦ inl (ground arith)
      | inr f ↦ elim (Bool-cases (is_standing t.number standing)) [
        | inl g ↦ inl (ground arith)
        | inr g ↦ elim (Bool-cases (is_pinned state t.number)) [
          | inl p ↦ inl (ground arith)
          | inr p ↦ inr (ground arith)
        ]
      ]
    ]
  ]

  try_of-verdict :
      (v : Verdict)
      → verdict site policy floor identity disk standing state t ≡ ok v
      → try_of v ≡ some t.number
  unfolding verdict
  try_of-verdict (candidate c) h =
      ap some
        (Selected-verdict site policy floor identity disk standing state t c h).matches.same_try
  try_of-verdict (skip s) h = elim (skipped-early s h) [
    | inl e ↦ e
    | inr later ↦
        let (o, read, rest) = >>=?-eq-ok (manifest_of t.number disk) _ later in
        skipped-published o s rest
  ]

module _ (site : Site) (policy : RetentionPolicy) (floor : ℕ) (identity : String) (disk : Disk)
    (state : AttemptState) (standing : Option Fields) (vs : List Verdict)
    (folded : fold_disk disk ≡ ok state) (stood : standing_of disk ≡ ok standing)
    (surveyed : survey_record site policy floor identity disk ≡ ok vs) where
  tried :
      (ts : List TryState)
      → record_of_tries site policy floor identity disk state ts ≡ ok vs
      → ok (no_try site policy floor identity ∷ []) ≡ ok vs
        ⊎ (verdicts site policy floor identity disk standing state ts ≡ ok vs)
  tried [] h = inl h
  tried (t ∷ ts) h = inr (rw stood at h)

  survey_record-tried : record_of_tries site policy floor identity disk state state.tries ≡ ok vs
  unfolding survey_record
  survey_record-tried = rw folded at surveyed

  survey_tries :
      (ok (no_try site policy floor identity ∷ []) ≡ ok vs)
      ⊎ (verdicts site policy floor identity disk standing state state.tries ≡ ok vs)
  survey_tries = tried state.tries survey_record-tried

  -- A candidate of a survey is a try of the record that has ended, with an outcome other than
  -- `unreconciled`, that is not the standing result and has no active pin, whose manifest is visible and at
  -- least as old as the floor, and whose workspace is a directory below the root. A rule of the policy names
  -- its outcome or none, keeps at least `keep_latest` newer terminal tries, finds it as old and as large as
  -- it asks, and gives its name and the bytes that it measured.
  pub survey-Spent :
      (c : Candidate)
      → Memᴰ c (candidates_of vs)
      → Spent site policy floor identity disk standing state state.tries c
  survey-Spent c there = elim survey_tries [
    | inl none_tried ↦
        absurd (
          nobody
            (subst (λ us. Memᴰ c (candidates_of us)) (sym (ok-injective _ _ none_tried)) there))
    | inr judged ↦
        Judged-Spent site policy floor identity disk standing state state.tries vs
          (verdicts-Judged site policy floor identity disk standing state state.tries vs judged) c
          there
  ]
    where
      nobody : Memᴰ c [] → ⊥
      nobody m = elim m [ ]

  tries_of-Judged :
      (ts : List TryState) (us : List Verdict)
      → Judged site policy floor identity disk standing state ts us
      → map try_of us ≡ map (λ t. some t.number) ts
  tries_of-Judged [] [] j = refl
  tries_of-Judged [] (v ∷ us) j = absurd j
  tries_of-Judged (t ∷ ts) [] j = absurd j
  tries_of-Judged (t ∷ ts) (v ∷ us) j =
      ap (λ o. o ∷ map try_of us)
        (try_of-verdict site policy floor identity disk standing state t v j.0)
      ∙ ap (λ os. some t.number ∷ os) (tries_of-Judged ts us j.1)

  -- A survey of a record that has tries gives exactly one verdict on each of them, in their order.
  pub each_try_has_one_verdict :
      (t : TryState) → Memᴰ t state.tries → map try_of vs ≡ map (λ u. some u.number) state.tries
  each_try_has_one_verdict t there = classified state.tries there (survey_record-tried)
    where
      classified :
          (ts : List TryState)
          → Memᴰ t ts
          → record_of_tries site policy floor identity disk state ts ≡ ok vs
          → map try_of vs ≡ map (λ u. some u.number) ts
      classified [] m h = elim m [ ]
      classified (u ∷ ts) m h = tries_of-Judged (u ∷ ts) vs (
          verdicts-Judged site policy floor identity disk standing state (u ∷ ts) vs
            (rw stood at h))
