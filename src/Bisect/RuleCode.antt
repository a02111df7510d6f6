-- ===== src/Bisect/RuleCode.antt =====
-- `ValidateRuleCode`: the regular expression ^XPC(?:\d{3,}|\.[A-Z]\.[a-zA-Z0-9._-]+)$.
use cross_validate.Base.{String, Bool, true, false, ◌&&◌, ◌||◌, leb, nat_eq, string_eq}
use cross_validate.Base.Texts.{is_digit}
use Prim.Native.Char.{Char, code}

abbrev is_upper : Char → Bool
is_upper c = leb b'A' (code c) && leb (code c) b'Z'

abbrev is_name_char : Char → Bool
is_name_char c =
    let n = code c in
    leb b'a' n && leb n b'z'
    || is_upper c
    || is_digit c
    || nat_eq n b'.'
    || nat_eq n b'_'
    || nat_eq n b'-'

all_chars : (Char → Bool) → String → Bool
all_chars p String.[] = true
all_chars p (String.◌∷◌ c s) = p c && all_chars p s

-- `\d{3,}`
abbrev legacy : String → Bool
legacy (String.◌∷◌ a (String.◌∷◌ b (String.◌∷◌ c s))) =
    all_chars is_digit (String.◌∷◌ a (String.◌∷◌ b (String.◌∷◌ c s)))
legacy _ = false

-- `\.[A-Z]\.[a-zA-Z0-9._-]+`
abbrev modern : String → Bool
modern (String.◌∷◌ a (String.◌∷◌ b (String.◌∷◌ c (String.◌∷◌ d s)))) =
    nat_eq (code a) b'.'
    && is_upper b
    && nat_eq (code c) b'.'
    && all_chars is_name_char (String.◌∷◌ d s)
modern _ = false

abbrev body : String → Bool
body s = legacy s || modern s

-- True where `ValidateRuleCode` returns nil.
unfoldable pub validate_rule_code : String → Bool
unfolding all_chars
validate_rule_code (String.◌∷◌ x (String.◌∷◌ p (String.◌∷◌ c s))) =
    nat_eq (code x) b'X' && nat_eq (code p) b'P' && nat_eq (code c) b'C' && body s
validate_rule_code _ = false
