-- ===== src/Prune/Survey/Ranks.antt =====
-- The rank of a try counts newer terminal tries.
use hedloom.Base.{
  ℕ, ◌≤◌, ◌<◌, ◌≡◌, refl, none, List, [], ◌∷◌, All, All-map, count, ltb, leb, arith, inl, inr,
  Bool-cases,
}
use hedloom.Journal.Types.{TryState}
use hedloom.Prune.Survey.Newest.{
  terminal_numbers, insert_number, newest_first, index_of, or_zero, rank,
}

abbrev newer : ℕ → List ℕ → ℕ
newer n = count (λ m. ltb n m)

abbrev Descending : List ℕ → Type 0
Descending [] = Unit
Descending (m ∷ ms) = All (λ k. k ≤ m) ms × Descending ms

newer-insert_number : (n m : ℕ) (ms : List ℕ) → newer n (insert_number m ms) ≡ newer n (m ∷ ms)
unfolding insert_number
newer-insert_number n m [] = refl
newer-insert_number n m (k ∷ ms) = ground (arith, newer-insert_number n m ms)

newer-newest_first : (n : ℕ) (ms : List ℕ) → newer n (newest_first ms) ≡ newer n ms
unfolding newest_first
newer-newest_first n [] = refl
newer-newest_first n (m ∷ ms) =
    ground (arith, newer-insert_number n m (newest_first ms), newer-newest_first n ms)

All-insert_number :
    (b m : ℕ) (ms : List ℕ) → m ≤ b → All (λ k. k ≤ b) ms → All (λ k. k ≤ b) (insert_number m ms)
unfolding insert_number
All-insert_number b m [] h hs = (h, tt)
All-insert_number b m (k ∷ ms) h hs = elim (Bool-cases (leb k m)) [
  | inl e ↦ rw e (h, hs)
  | inr e ↦ rw e (hs.0, All-insert_number b m ms h hs.1)
]

Descending-insert_number : (m : ℕ) (ms : List ℕ) → Descending ms → Descending (insert_number m ms)
unfolding insert_number
Descending-insert_number m [] d = (tt, tt)
Descending-insert_number m (k ∷ ms) d = elim (Bool-cases (leb k m)) [
  | inl e ↦ rw e ((ground arith, All-map (λ j. j ≤ k) (λ j. j ≤ m) (λ j h. ground arith) ms d.0), d)
  | inr e ↦ rw e (All-insert_number k m ms (ground arith) d.0, Descending-insert_number m ms d.1)
]

Descending-newest_first : (ms : List ℕ) → Descending (newest_first ms)
unfolding newest_first
Descending-newest_first [] = tt
Descending-newest_first (m ∷ ms) =
    Descending-insert_number m (newest_first ms) (Descending-newest_first ms)

index_of-above : (n m : ℕ) (ms : List ℕ) → m < n → All (λ k. k ≤ m) ms → index_of n ms ≡ none
index_of-above n m [] lt h = refl
index_of-above n m (k ∷ ms) lt h = ground (arith, index_of-above n m ms lt h.1, h.0)

-- At least as many entries are newer as the index says.
index_of-newer : (n : ℕ) (ms : List ℕ) → Descending ms → or_zero (index_of n ms) ≤ newer n ms
index_of-newer n [] d = omega arith
index_of-newer n (m ∷ ms) d = elim (Bool-cases (ltb m n)) [
  | inl e ↦ ground (arith, index_of-above n m ms (ground arith) d.0)
  | inr e ↦ ground (arith, index_of-newer n ms d.1)
]

-- As many terminal tries are newer as the rank says, at least.
pub rank-newer :
    (n : ℕ) (tries : List TryState) → rank n tries ≤ count (λ m. ltb n m) (terminal_numbers tries)
unfolding rank
rank-newer n tries =
    let ms = terminal_numbers tries in
    ground (
      arith,
      index_of-newer n (newest_first ms) (Descending-newest_first ms),
      newer-newest_first n ms,
    )
