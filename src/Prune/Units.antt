-- ===== src/Prune/Units.antt =====
-- `_duration` and `_size`: a decimal number without leading zeros and a unit.
use Prim.Native.Char.{code}
use Prim.Native.String.{[], ◌∷◌}
use hedloom.Base.{
  ℕ, ◌+◌, ◌-◌, ◌*◌, String, Bool, ◌&&◌, Option, none, some, leb, ◌==◌, str_eq, if◌then◌else◌,
}
use hedloom.Result.{Result, ok, err, ◌>>=?◌, or_raise, retention_error, overflow}

abbrev is_digit : ℕ → Bool
is_digit c = leb 48 c && leb c 57

abbrev scaled : ℕ → Option ℕ → Option ℕ
scaled n none = none
scaled n (some factor) = some (n * factor)

-- `[0-9]*` and then the unit.
unfoldable pub counted : (String → Option ℕ) → ℕ → String → Option ℕ
counted unit n [] = scaled n (unit [])
counted unit n (c ∷ rest) =
    if is_digit (code c)
    then counted unit (n * 10 + (code c - 48)) rest
    else scaled n (unit (c ∷ rest))

-- `(0|[1-9][0-9]*)` and then the unit.
unfoldable pub measure : (String → Option ℕ) → String → Option ℕ
unfolding counted
measure unit [] = none
measure unit (c ∷ rest) =
    if code c == 48
    then scaled 0 (unit rest)
    else if is_digit (code c)
    then counted unit (code c - 48) rest
    else none

-- `_DURATION_SECONDS`
abbrev pub seconds_of : String → Option ℕ
seconds_of unit =
    if str_eq unit "s"
    then some 1
    else if str_eq unit "m"
    then some 60
    else if str_eq unit "h"
    then some 3600
    else if str_eq unit "d"
    then some 86400
    else if str_eq unit "w"
    then some 604800
    else none

-- `_SIZE_BYTES`
abbrev pub bytes_of : String → Option ℕ
bytes_of unit =
    if str_eq unit "B"
    then some 1
    else if str_eq unit "KiB"
    then some 1024
    else if str_eq unit "MiB"
    then some 1048576
    else if str_eq unit "GiB"
    then some 1073741824
    else if str_eq unit "TiB"
    then some 1099511627776
    else none

-- The longest `timedelta`, in seconds
abbrev longest : ℕ
longest = 86399999999999

-- `_duration`, in seconds
unfoldable pub duration : String → Result ℕ
unfolding measure
duration text = or_raise (measure seconds_of text) retention_error >>=? λ n.
    if leb n longest then ok n else err overflow

-- `_size`
unfoldable pub size : String → Result ℕ
unfolding measure
size text = or_raise (measure bytes_of text) retention_error
