-- ===== src/Prune/Report.antt =====
-- What the report of `Survey.apply` adds up to.
use hedloom.Base.{
  ℕ, suc, ◌+◌, ◌≡◌, refl, subst, String, false, Option, List, [], ◌∷◌, ◌++◌, length, length-append,
  arith, Bool-cases, inl, inr,
}
use hedloom.Result.{Result, ok, err}
use hedloom.Prune.Policy.{RetentionPolicy}
use hedloom.Prune.Survey.{Candidate}
use hedloom.Prune.Apply.{
  Removal, removed, kept, Records, PruneReport, note, at_limit, caught, opened, closed, apply_one,
  apply_from,
}

abbrev pub total : List Candidate → ℕ
total [] = 0
total (c ∷ cs) = c.bytes + total cs

total-snoc : (cs : List Candidate) (c : Candidate) → total (cs ++ c ∷ []) ≡ total cs + c.bytes
total-snoc [] c = omega arith
total-snoc (d ∷ cs) c = omega (arith, total-snoc cs c)

-- The report's sum, and how many proposals it accounts for; `todo` are still to come.
pub record Accounts (proposals todo : ℕ) (r : PruneReport) : Type 0 where
  pub sum : r.freed_bytes ≡ total r.removed_candidates
  pub all :
      r.stopped_at_limit ≡ false → length r.removed_candidates + length r.skips + todo ≡ proposals

Accounts-note :
    (n todo : ℕ) (m : Removal) (r : PruneReport)
    → r.stopped_at_limit ≡ false
    → Accounts n (suc todo) r
    → Accounts n todo (note m r)
Accounts-note n todo (removed c) r going a = record {
  sum = omega (arith, a.sum, total-snoc r.removed_candidates c);
  all = λ g. omega (arith, a.all going, length-append r.removed_candidates (c ∷ []));
}
Accounts-note n todo (kept s) r going a = record {
  sum = a.sum;
  all = λ g. omega (arith, a.all going, length-append r.skips (s ∷ []));
}

note-going :
    (m : Removal) (r : PruneReport)
    → r.stopped_at_limit ≡ false
    → (note m r).stopped_at_limit ≡ false
note-going (removed c) r going = going
note-going (kept s) r going = going

abbrev pub no_report : PruneReport
no_report = record {
  removed_candidates = [];
  skips = [];
  freed_bytes = 0;
  stopped_at_limit = false;
}

module _ (policy : RetentionPolicy) (path : String → ℕ → String) (actor : Option String)
    (limit : Option ℕ) where
  abbrev Reports : ℕ → Result PruneReport × Records → Type 0
  Reports n (ok r, rs) = Accounts n 0 r
  Reports n (err e, rs) = Unit

  Reports-caught :
      (n : ℕ) (m : Result Removal) (rest : Removal → Result PruneReport × Records) (rs : Records)
      → ((x : Removal) → Reports n (rest x))
      → Reports n (elim m [ ok x ↦ rest x | err e ↦ (err e, rs) ])
  Reports-caught n (ok x) rest rs k = k x
  Reports-caught n (err e) rest rs k = tt

  apply_from-Accounts :
      (n : ℕ) (cs : List Candidate) (r : PruneReport) (rs : Records)
      → r.stopped_at_limit ≡ false
      → Accounts n (length cs) r
      → Reports n (apply_from policy path actor limit cs r rs)
  unfolding apply_from
  apply_from-Accounts n [] r rs going a = a
  apply_from-Accounts n (c ∷ cs) r rs going a = elim (Bool-cases (at_limit limit r.freed_bytes)) [
    | inl e ↦ rw e (record { sum = a.sum; all = λ g. cc })
    | inr e ↦
        let w = apply_one policy path actor c (opened c.identity rs) in
        rw e (
          Reports-caught n (caught c w.0) _ (closed c.identity w.1 rs) (λ x.
            apply_from-Accounts n cs (note x r) (closed c.identity w.1 rs) (note-going x r going)
              (Accounts-note n (length cs) x r going a)))
  ]

  -- The bytes that `apply` reports are the sum over what it removed, and unless the limit stopped it,
  -- each proposal was removed or is among the skips.
  pub report_adds_up :
      (cs : List Candidate) (rs rs' : Records) (r : PruneReport)
      → apply_from policy path actor limit cs no_report rs ≡ (ok r, rs')
      → (r.freed_bytes ≡ total r.removed_candidates)
        × (r.stopped_at_limit ≡ false → length r.removed_candidates + length r.skips ≡ length cs)
  report_adds_up cs rs rs' r h =
      let a = subst (Reports (length cs)) h (
        apply_from-Accounts (length cs) cs no_report rs refl
          (record { sum = refl; all = λ g. omega arith })) in
      (a.sum, λ g. omega (arith, a.all g))
