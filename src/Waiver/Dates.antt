-- ===== src/Waiver/Dates.antt =====
-- Dates without a time: `time.Parse` for the layout 2006-01-02, and `Time.After`.
use cross_validate.Base.{
  ℕ, ◌+◌, ◌-◌, ◌*◌, ◌%◌, String, Bool, ◌&&◌, ◌||◌, not, Option, none, some, List, [], ◌∷◌,
  if◌then◌else◌, ltb, leb, nat_eq, ◌>>=◌,
}
use cross_validate.Base.Texts.{is_digit}
use Prim.Native.Char.{Char, code}

pub record Date : Type 0 where
  pub year : ℕ
  pub month : ℕ
  pub day : ℕ

abbrev digit_of : Char → Option ℕ
digit_of c = if is_digit c then some (code c - b'0') else none

abbrev two_digits : Char → Char → Option ℕ
two_digits a b = do x ← digit_of a; y ← digit_of b; some (10 * x + y)

abbrev four_digits : Char → Char → Char → Char → Option ℕ
four_digits a b c d = do x ← two_digits a b; y ← two_digits c d; some (100 * x + y)

abbrev is_leap : ℕ → Bool
is_leap y = nat_eq (y % 4) 0 && (not (nat_eq (y % 100) 0) || nat_eq (y % 400) 0)

-- `daysIn`
abbrev days_in : ℕ → ℕ → ℕ
days_in month year =
    if nat_eq month 2
    then (if is_leap year then 29 else 28)
    else if nat_eq month 4 || nat_eq month 6 || nat_eq month 9 || nat_eq month 11
    then 30
    else 31

abbrev dash : Char → Bool
dash c = nat_eq (code c) b'-'

abbrev valid_date : ℕ → ℕ → ℕ → Option Date
valid_date year month day =
    if leb 1 month && leb month 12 && leb 1 day && leb day (days_in month year)
    then some (record { year = year; month = month; day = day })
    else none

abbrev date_of : List Char → Option Date
date_of (a ∷ b ∷ c ∷ d ∷ e ∷ f ∷ g ∷ h ∷ i ∷ j ∷ []) = do
  year ← four_digits a b c d
  month ← two_digits f g
  day ← two_digits i j
  if dash e && dash h then valid_date year month day else none
date_of _ = none

abbrev chars : String → List Char
chars String.[] = []
chars (String.◌∷◌ c s) = c ∷ chars s

-- `none` where Go gives an error
unfoldable pub parse_date : String → Option Date
parse_date s = date_of (chars s)

-- `now.After(date)` on days
abbrev pub date_after : Date → Date → Bool
date_after a b =
    ltb b.year a.year
    || nat_eq b.year a.year && (ltb b.month a.month || nat_eq b.month a.month && ltb b.day a.day)
