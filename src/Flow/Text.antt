-- ===== src/Flow/Text.antt =====
-- The checks of texts in flow/src/hedloom_flow/model.py: `_require_text`, `_ID_PATTERN`, and what Python's
-- `str.strip` and `PurePosixPath.parts` give them.
use Prim.Native.Char.{Char, code}
use hedloom.Base.{
  ℕ, String, Bool, true, false, not, ◌&&◌, ◌||◌, List, [], ◌∷◌, leb, ◌==◌, str_eq, if◌then◌else◌,
  keep,
}

-- `c.isspace()`
abbrev pub is_space : ℕ → Bool
is_space c =
    (leb 9 c && leb c 13)
    || (leb 28 c && leb c 32)
    || (c == 133)
    || (c == 160)
    || (c == 5760)
    || (leb 8192 c && leb c 8202)
    || (c == 8232)
    || (c == 8233)
    || (c == 8239)
    || (c == 8287)
    || (c == 12288)

-- `s.lstrip()`
abbrev lstrip : String → String
lstrip String.[] = String.[]
lstrip (String.◌∷◌ c s) = if is_space (code c) then lstrip s else String.◌∷◌ c s

abbrev put_before : Char → String → String
put_before c String.[] = if is_space (code c) then String.[] else String.◌∷◌ c String.[]
put_before c (String.◌∷◌ d s) = String.◌∷◌ c (String.◌∷◌ d s)

-- `s.rstrip()`
abbrev rstrip : String → String
rstrip String.[] = String.[]
rstrip (String.◌∷◌ c s) = put_before c (rstrip s)

-- `s.strip()`
unfoldable pub strip : String → String
strip s = rstrip (lstrip s)

-- `_valid_text`, of a text
unfoldable pub valid_text : String → Bool
valid_text s = not (str_eq s "") && str_eq s (strip s)

abbrev is_alphanumeric : ℕ → Bool
is_alphanumeric c = (leb 65 c && leb c 90) || (leb 97 c && leb c 122) || (leb 48 c && leb c 57)

-- `._:/@+-`
abbrev is_mark : ℕ → Bool
is_mark c = (c == 46) || (c == 95) || (c == 58) || (c == 47) || (c == 64) || (c == 43) || (c == 45)

abbrev id_rest : String → Bool
id_rest String.[] = true
id_rest (String.◌∷◌ c s) = (is_alphanumeric (code c) || is_mark (code c)) && id_rest s

-- `_ID_PATTERN.fullmatch(s)`
unfoldable pub matches_id : String → Bool
matches_id String.[] = false
matches_id (String.◌∷◌ c s) = is_alphanumeric (code c) && id_rest s

-- `_valid_id`
unfoldable pub valid_id : String → Bool
valid_id s = valid_text s && matches_id s

abbrev onto : Char → List String → List String
onto c [] = String.◌∷◌ c String.[] ∷ []
onto c (w ∷ ws) = String.◌∷◌ c w ∷ ws

-- `s.split("/")`
abbrev split : String → List String
split String.[] = "" ∷ []
split (String.◌∷◌ c s) = if code c == 47 then "" ∷ split s else onto c (split s)

-- The names of a path, without its root
unfoldable pub names : String → List String
names s = keep (λ w. not (str_eq w "" || str_eq w ".")) (split s)

-- `PurePosixPath(s).is_absolute()`
abbrev pub is_absolute : String → Bool
is_absolute String.[] = false
is_absolute (String.◌∷◌ c s) = code c == 47

-- The root of an absolute path, which two slashes, but not three, distinguish.
abbrev pub root_of : String → String
root_of (String.◌∷◌ c s) = if is_absolute s && not (is_absolute (rest s)) then "//" else "/"
  where
    rest : String → String
    rest String.[] = ""
    rest (String.◌∷◌ d t) = t
root_of String.[] = "/"

abbrev pub with_root : Bool → String → List String
with_root absolute s = if absolute then root_of s ∷ names s else names s

-- `PurePosixPath(s).parts`
unfoldable pub parts : String → List String
unfolding names
parts s = with_root (is_absolute s) s
