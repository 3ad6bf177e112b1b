-- ===== src/Journal/Ledger/Lookup.antt =====
-- Looking a try up by its number, among tries that are numbered without gaps.
use hedloom.Base.{
  ℕ, ◌≤◌, ◌<◌, ◌≡◌, refl, subst, true, false, some, List, [], ◌∷◌, length, All, arith, ◌==◌, inl,
  inr, Bool-cases,
}
use hedloom.Journal.Types.{TryState, is_terminal, try_at}
use hedloom.Journal.Ledger.{opened, Numbered, Settled}
use hedloom.Journal.Fold.Sorting.{newest}

pub opened_one : (n : ℕ) (ts : List TryState) → opened n ts ≤ 1
opened_one n [] = omega arith
opened_one n (t ∷ ts) = ground (arith, opened_one n ts)

pub try_at-number :
    (n : ℕ) (ts : List TryState) (t : TryState) → try_at n ts ≡ some t → t.number ≡ n
try_at-number n [] t h = cc
try_at-number n (u ∷ ts) t h = ground (arith, try_at-number n ts t)

some-injective : {A : Type 0} (a b : A) → some a ≡ some b → a ≡ b
some-injective a b h = cc

pub try_at-All :
    (P : TryState → Type 0) (n : ℕ) (ts : List TryState) (t : TryState)
    → All P ts
    → try_at n ts ≡ some t
    → P t
try_at-All P n [] t ps h = cc
try_at-All P n (u ∷ ts) t ps h = elim (Bool-cases (u.number == n)) [
  | inl e ↦ subst P (some-injective u t (rw e at h)) ps.0
  | inr e ↦ try_at-All P n ts t ps.1 (rw e at h)
]

pub try_at-exists :
    (n : ℕ) (ts : List TryState)
    → Numbered ts
    → n < length ts
    → (t : TryState) × (try_at n ts ≡ some t)
try_at-exists n [] h lt = absurd (omega arith)
try_at-exists n (u ∷ ts) h lt = elim (Bool-cases (u.number == n)) [
  | inl e ↦ (u, rw e refl)
  | inr e ↦ let (t, there) = try_at-exists n ts h.1 (ground arith) in (t, rw e there)
]

-- A try that has not ended is the newest.
pub live-newest :
    (n : ℕ) (ts : List TryState) (t : TryState)
    → Settled ts
    → try_at n ts ≡ some t
    → is_terminal t ≡ false
    → newest ts ≡ some t
live-newest n [] t h there live = cc
live-newest n (u ∷ ts) t h there live = elim (Bool-cases (u.number == n)) [
  | inl e ↦ rw e at there
  | inr e ↦ cc (try_at-All (λ x. is_terminal x ≡ true) n ts t h (rw e at there))
]
