-- ===== src/Prune/Proposed.antt =====
-- What a survey of prune.py of one record says of its candidates.
use hedloom.Base.{
  ℕ, ◌≡◌, sym, ap, subst, ◌∙◌, String, Bool, true, Option, some, List, [], ◌∷◌, ◌++◌, append-nil,
  some_inj, find, Bool-cases, inl, inr, if◌then◌else◌, arith,
}
use mathlib.Core.List.{Memᴰ}
use mathlib.Core.List.Memᴰ.{head, tail}
use hedloom.Json.{Fields}
use hedloom.Result.{ok, >>=?-eq-ok}
use hedloom.Journal.Types.{TryState, AttemptState}
use hedloom.Journal.World.{Disk}
use hedloom.Journal.Disk.{fold_disk, standing_of}
use hedloom.Prune.Policy.{RetentionPolicy}
use hedloom.Prune.Units.{duration}
use hedloom.Prune.Survey.{
  Site, Candidate, Verdict, survey, survey_records, survey_record, record_of_tries, candidates_of,
}
use hedloom.Prune.Promises.{Spent, survey-Spent}

-- A survey of this record alone, on this disk, finds the candidate spent.
pub record Proposed (policy : RetentionPolicy) (site : Site) (identity : String) (disk : Disk)
    (c : Candidate) : Type 0 where
  pub seconds : ℕ
  pub state : AttemptState
  pub folded : fold_disk disk ≡ ok state
  pub standing : Option Fields
  pub stood : standing_of disk ≡ ok standing
  pub spent : Spent site policy seconds identity disk standing state state.tries c

ok-injective : {A : Type 0} (a b : A) → ok a ≡ ok b → a ≡ b
ok-injective a b h = cc

record_of_tries-Proposed :
    (policy : RetentionPolicy) (site : Site) (seconds : ℕ) (identity : String) (disk : Disk)
    (state : AttemptState) (vs : List Verdict) (c : Candidate)
    → fold_disk disk ≡ ok state
    → survey_record site policy seconds identity disk ≡ ok vs
    → Memᴰ c (candidates_of vs)
    → (ts : List TryState) → record_of_tries site policy seconds identity disk state ts ≡ ok vs
    → Proposed policy site identity disk c
record_of_tries-Proposed policy site seconds identity disk state vs c folded surveyed there [] h =
    absurd (nobody (subst (λ us. Memᴰ c (candidates_of us)) (sym (ok-injective _ _ h)) there))
  where
    nobody : Memᴰ c [] → ⊥
    nobody m = elim m [ ]
record_of_tries-Proposed policy site seconds identity disk state vs c folded surveyed there (t ∷ ts)
      h =
    let (standing, stood, rest) = >>=?-eq-ok (standing_of disk) _ h in
    record {
      seconds = seconds;
      state = state;
      folded = folded;
      standing = standing;
      stood = stood;
      spent =
          survey-Spent site policy seconds identity disk state standing vs folded stood surveyed c
            there;
    }

pub survey-Proposed :
    (policy : RetentionPolicy) (site : Site) (identity : String) (disk : Disk) (vs : List Verdict)
    (c : Candidate)
    → survey site policy ((identity, disk) ∷ []) ≡ ok vs
    → Memᴰ c (candidates_of vs)
    → Proposed policy site identity disk c
unfolding survey survey_records survey_record
survey-Proposed policy site identity disk vs c h there =
    let (seconds, read, surveyed) =
      >>=?-eq-ok (duration policy.floor) (λ n. survey_records site policy n ((identity, disk) ∷ []))
        h in
    let (us, one, rest) =
      >>=?-eq-ok (survey_record site policy seconds identity disk) (λ z. ok (z ++ [])) surveyed in
    let (state, folded, tried) = >>=?-eq-ok (fold_disk disk) _ one in
    record_of_tries-Proposed policy site seconds identity disk state us c folded one
      (subst (λ z. Memᴰ c (candidates_of z)) (sym (ok-injective _ _ rest) ∙ append-nil us) there)
      state.tries tried

pub find-Mem :
    (f : Candidate → Bool) (cs : List Candidate) (c : Candidate)
    → find f cs ≡ some c
    → Memᴰ c cs × (f c ≡ true)
find-Mem f [] c h = absurd (ground (arith, h))
find-Mem f (d ∷ ds) c h = elim (Bool-cases (f d)) [
  | inl p ↦
      let same = some_inj (sym (ap (λ b. if b then some d else find f ds) p) ∙ h) in
      (head (sym same), subst (λ z. f z ≡ true) same p)
  | inr p ↦
      let rest = find-Mem f ds c (sym (ap (λ b. if b then some d else find f ds) p) ∙ h) in
      (tail rest.0, rest.1)
]
