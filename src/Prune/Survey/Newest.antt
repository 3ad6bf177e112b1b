-- ===== src/Prune/Survey/Newest.antt =====
-- The rank of a try among the terminal ones, the newest first.
use hedloom.Base.{ℕ, suc, Option, none, some, List, [], ◌∷◌, leb, ◌==◌, if◌then◌else◌}
use hedloom.Journal.Types.{TryState, is_terminal}

-- `(item.number for item in tries if item.is_terminal)`
abbrev pub terminal_numbers : List TryState → List ℕ
terminal_numbers [] = []
terminal_numbers (t ∷ ts) =
    if is_terminal t then t.number ∷ terminal_numbers ts else terminal_numbers ts

-- `sorted(…, reverse=True)`
unfoldable pub insert_number : ℕ → List ℕ → List ℕ
insert_number n [] = n ∷ []
insert_number n (m ∷ ms) = if leb m n then n ∷ m ∷ ms else m ∷ insert_number n ms

unfoldable pub newest_first : List ℕ → List ℕ
newest_first [] = []
newest_first (n ∷ ns) = insert_number n (newest_first ns)

-- `{number: index for index, number in enumerate(newest)}.get(n, 0)`
abbrev pub index_of : ℕ → List ℕ → Option ℕ
index_of n [] = none
index_of n (m ∷ ms) =
    if m == n then some 0 else elim (index_of n ms) [ none ↦ none | some i ↦ some (suc i) ]

abbrev pub or_zero : Option ℕ → ℕ
or_zero none = 0
or_zero (some n) = n

unfoldable pub rank : ℕ → List TryState → ℕ
unfolding newest_first insert_number
rank n tries = or_zero (index_of n (newest_first (terminal_numbers tries)))
