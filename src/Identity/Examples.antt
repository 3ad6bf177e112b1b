-- ===== src/Identity/Examples.antt =====
-- One try of one record.
use hedloom.Base.{String, ◌≡◌, refl, decimal, digits, undecimal, scan}
use hedloom.Identity.{rendered, is_rendered, try_name, parse_try_name}
use hedloom.Identity.RoundTrip.{parse-try_name}
use hedloom.Result.{ok, err, bad_try_name}

abbrev identity : String
identity = "hedloom-0123456789abcdef0123"

named : try_name identity 12 ≡ ok "hedloom-0123456789abcdef0123-12"
unfolding try_name is_rendered rendered decimal digits
named = refl

parse-try_name_example : parse_try_name "hedloom-0123456789abcdef0123-12" ≡ ok (identity, 12)
parse-try_name_example = parse-try_name identity 12 "hedloom-0123456789abcdef0123-12" named

-- A number with a leading zero is no try number.
padded : parse_try_name "hedloom-0123456789abcdef0123-012" ≡ err bad_try_name
unfolding parse_try_name rendered undecimal scan
padded = refl
