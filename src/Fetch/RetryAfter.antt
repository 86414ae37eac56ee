-- ===== src/Fetch/RetryAfter.antt =====
-- src/oauthclientbridge/oauth/_core.py, `parse_retry`: the seconds of a Retry-After header. A header
-- is its code points.
use oauthclientbridge.Base.{
  ℕ, ◌+◌, ◌-◌, ◌*◌, ◌/◌, ◌≡◌, ◌<◌, refl, Bool, true, false, ◌&&◌, Option, none, some, List, [], ◌∷◌,
  ◌++◌, map, arith, all, All, leb, ltb, ◌||◌, length, if◌then◌else◌,
}
use oauthclientbridge.Base.Result.{Result, ok, err}
use oauthclientbridge.Errors.{Exception, value_error}
use oauthclientbridge.Base.Text.{unit, is_space}

-- `[0-9]`
abbrev is_digit : ℕ → Bool
is_digit c = leb 48 c && leb c 57

skip_spaces : List ℕ → List ℕ
skip_spaces [] = []
skip_spaces (c ∷ cs) = if is_space c then skip_spaces cs else c ∷ cs

read_digits : ℕ → List ℕ → Option ℕ
read_digits n [] = some n
read_digits n (c ∷ cs) =
    let more = read_digits (n * 10 + (c - 48)) cs in
    if is_digit c then more else if is_space c && all is_space cs then some n else none

read_number : List ℕ → Option ℕ
read_number [] = none
read_number (c ∷ cs) = if is_digit c then read_digits (c - 48) cs else none

-- `int(value)` where `^\s*[0-9]+\s*$` matches.
unfoldable pub integer_text : List ℕ → Option ℕ
unfolding skip_spaces read_digits read_number
integer_text value = read_number (skip_spaces value)

-- The separators U+001C to U+001F, which `\s` matches and `int` refuses.
abbrev is_separator : ℕ → Bool
is_separator c = leb 28 c && leb c 31

unfoldable pub has_separator : List ℕ → Bool
has_separator [] = false
has_separator (c ∷ cs) = is_separator c || has_separator cs

count_digits : List ℕ → ℕ
count_digits [] = 0
count_digits (c ∷ cs) = (if is_digit c then 1 else 0) + count_digits cs

-- The most digits that `int` reads of a text.
abbrev pub max_digits : ℕ
max_digits = 4300

-- `int(value)`, where the digits write `seconds`.
unfoldable pub int_of : List ℕ → ℕ → Result Exception ℕ
unfolding has_separator count_digits
int_of value seconds =
    if has_separator value || ltb max_digits (count_digits value)
    then err value_error
    else ok seconds

-- `parse_date` is `parsedate_tz` with `mktime_tz`, which raises where a date is out of range, and
-- `now` is `time.time()`. A date that has passed gives 0, as subtraction stops there.
abbrev seconds_until : ℕ → Result Exception (Option ℕ) → Result Exception ℕ
seconds_until now (err e) = err e
seconds_until now (ok none) = ok 0
seconds_until now (ok (some date)) = ok ((date * unit - now) / unit)

abbrev read_header :
    (List ℕ → Result Exception (Option ℕ)) → ℕ → List ℕ → Option ℕ → Result Exception ℕ
read_header parse_date now value (some seconds) = int_of value seconds
read_header parse_date now value none = seconds_until now (parse_date value)

unfoldable pub parse_retry :
    (List ℕ → Result Exception (Option ℕ)) → ℕ → Option (List ℕ) → Result Exception ℕ
parse_retry parse_date now none = ok 0
parse_retry parse_date now (some []) = ok 0
parse_retry parse_date now (some (c ∷ cs)) =
    read_header parse_date now (c ∷ cs) (integer_text (c ∷ cs))

-- A text that is read: a number that `int` takes, or no number, and then no date that is out of range.
abbrev pub IsTaken : (List ℕ → Result Exception (Option ℕ)) → List ℕ → Option ℕ → Type 0
IsTaken parse_date value (some seconds) = int_of value seconds ≡ ok seconds
IsTaken parse_date value none = (date : Option ℕ) × (parse_date value ≡ ok date)

abbrev pub IsReadableHeader : (List ℕ → Result Exception (Option ℕ)) → Option (List ℕ) → Type 0
IsReadableHeader parse_date none = Unit
IsReadableHeader parse_date (some value) = IsTaken parse_date value (integer_text value)

seconds_until-returns :
    (now : ℕ) (date : Option ℕ) → (seconds : ℕ) × (seconds_until now (ok date) ≡ ok seconds)
seconds_until-returns now none = (0, refl)
seconds_until-returns now (some date) = ((date * unit - now) / unit, refl)

read_header-returns :
    (parse_date : List ℕ → Result Exception (Option ℕ)) (now : ℕ) (value : List ℕ)
    (number : Option ℕ)
    → IsTaken parse_date value number
    → (seconds : ℕ) × (read_header parse_date now value number ≡ ok seconds)
read_header-returns parse_date now value (some seconds) h = (seconds, h)
read_header-returns parse_date now value none (date, e) = rw e (seconds_until-returns now date)

pub parse_retry-returns :
    (parse_date : List ℕ → Result Exception (Option ℕ)) (now : ℕ) (value : Option (List ℕ))
    → IsReadableHeader parse_date value
    → (seconds : ℕ) × (parse_retry parse_date now value ≡ ok seconds)
unfolding parse_retry
parse_retry-returns parse_date now none h = (0, refl)
parse_retry-returns parse_date now (some []) h = (0, refl)
parse_retry-returns parse_date now (some (c ∷ cs)) h =
    read_header-returns parse_date now (c ∷ cs) (integer_text (c ∷ cs)) h

-- The number that decimal digits write, after those read so far.
abbrev pub number_from : ℕ → List ℕ → ℕ
number_from n [] = n
number_from n (d ∷ ds) = number_from (n * 10 + d) ds

abbrev pub IsSpaces : List ℕ → Type 0
IsSpaces = All (λ c. is_space c ≡ true)

abbrev pub AreDigits : List ℕ → Type 0
AreDigits = All (λ d. d < 10)

abbrev pub ascii : List ℕ → List ℕ
ascii = map (λ d. 48 + d)

all-IsSpaces : (cs : List ℕ) → IsSpaces cs → all is_space cs ≡ true
all-IsSpaces [] h = refl
all-IsSpaces (c ∷ cs) h = ground (arith, all-IsSpaces cs)

-- No character is both a digit and white space.
space-ne-digit : (c : ℕ) → is_space c ≡ true → is_digit c ≡ false
unfolding is_space
space-ne-digit c h = ground arith

digit_ascii : (d : ℕ) → d < 10 → (is_digit (48 + d) ≡ true) × (48 + d - 48 ≡ d)
digit_ascii d h = ground arith

read_digits-ascii :
    (n : ℕ) (ds after : List ℕ)
    → AreDigits ds
    → IsSpaces after
    → read_digits n (ascii ds ++ after) ≡ some (number_from n ds)
unfolding read_digits
read_digits-ascii n [] [] h k = refl
read_digits-ascii n [] (c ∷ cs) h k = ground (arith, space-ne-digit c k.0, all-IsSpaces cs k.1)
read_digits-ascii n (d ∷ ds) after h k =
    rw ((digit_ascii d h.0).0, (digit_ascii d h.0).1)
      (read_digits-ascii (n * 10 + d) ds after h.1 k)

skip_spaces-ascii :
    (before rest : List ℕ) (d : ℕ)
    → IsSpaces before
    → d < 10
    → skip_spaces (before ++ (48 + d) ∷ rest) ≡ (48 + d) ∷ rest
unfolding skip_spaces
skip_spaces-ascii [] rest d h k = ground (arith, space-ne-digit (48 + d), (digit_ascii d k).0)
skip_spaces-ascii (c ∷ cs) rest d h k = rw h.0 (skip_spaces-ascii cs rest d h.1 k)

integer_text-ascii :
    (before after ds : List ℕ) (d : ℕ)
    → IsSpaces before
    → IsSpaces after
    → d < 10
    → AreDigits ds
    → integer_text (before ++ (48 + d) ∷ (ascii ds ++ after)) ≡ some (number_from d ds)
unfolding integer_text
integer_text-ascii before after ds d hb ha hd hds =
    rw (skip_spaces-ascii before (ascii ds ++ after) d hb hd)
      (rw ((digit_ascii d hd).0, (digit_ascii d hd).1) (read_digits-ascii d ds after hds ha))

has_separator-ascii :
    (ds after : List ℕ) → AreDigits ds → has_separator (ascii ds ++ after) ≡ has_separator after
unfolding has_separator
has_separator-ascii [] after h = refl
has_separator-ascii (d ∷ ds) after h = ground (arith, has_separator-ascii ds after h.1)

has_separator-around :
    (before after ds : List ℕ)
    → AreDigits ds
    → has_separator (before ++ (ascii ds ++ after)) ≡ has_separator (before ++ after)
unfolding has_separator
has_separator-around [] after ds h = has_separator-ascii ds after h
has_separator-around (c ∷ cs) after ds h = rw (has_separator-around cs after ds h) refl

count_digits-spaces : (cs : List ℕ) → IsSpaces cs → count_digits cs ≡ 0
unfolding count_digits
count_digits-spaces [] h = refl
count_digits-spaces (c ∷ cs) h = ground (arith, space-ne-digit c h.0, count_digits-spaces cs h.1)

count_digits-ascii :
    (ds after : List ℕ)
    → AreDigits ds
    → IsSpaces after
    → count_digits (ascii ds ++ after) ≡ length ds
unfolding count_digits
count_digits-ascii [] after h k = count_digits-spaces after k
count_digits-ascii (d ∷ ds) after h k =
    ground (arith, (digit_ascii d h.0).0, count_digits-ascii ds after h.1 k)

count_digits-around :
    (before after ds : List ℕ)
    → IsSpaces before
    → AreDigits ds
    → IsSpaces after
    → count_digits (before ++ (ascii ds ++ after)) ≡ length ds
unfolding count_digits
count_digits-around [] after ds b h k = count_digits-ascii ds after h k
count_digits-around (c ∷ cs) after ds b h k =
    ground (arith, space-ne-digit c b.0, count_digits-around cs after ds b.1 h k)

-- What decimal digits with white space on either side give: the number that they write, unless a
-- separator is among the white space or there are more than 4300 digits.
abbrev pub reading : List ℕ → List ℕ → List ℕ → ℕ → Result Exception ℕ
reading before after ds seconds =
    if has_separator (before ++ after) || ltb max_digits (length ds)
    then err value_error
    else ok seconds

int_of-ascii :
    (before after : List ℕ) (d : ℕ) (ds : List ℕ) (seconds : ℕ)
    → IsSpaces before
    → IsSpaces after
    → AreDigits (d ∷ ds)
    → int_of (before ++ (48 + d) ∷ (ascii ds ++ after)) seconds
      ≡ reading before after (d ∷ ds) seconds
unfolding int_of
int_of-ascii before after d ds seconds b k h =
    rw
      (
        has_separator-around before after (d ∷ ds) h,
        count_digits-around before after (d ∷ ds) b h k,
      )
      refl

-- A header of decimal digits, with white space on either side, is the number that they write,
-- whatever the clock and the date parser say, if there are at most 4300 digits and none of the
-- separators U+001C to U+001F is among the white space; otherwise a ValueError is raised.
pub parse_retry-ascii :
    (parse_date : List ℕ → Result Exception (Option ℕ)) (now : ℕ) (before after ds : List ℕ) (d : ℕ)
    → IsSpaces before
    → IsSpaces after
    → AreDigits (d ∷ ds)
    → parse_retry parse_date now (some (before ++ (48 + d) ∷ (ascii ds ++ after)))
      ≡ reading before after (d ∷ ds) (number_from d ds)
unfolding parse_retry
parse_retry-ascii parse_date now [] after ds d hb ha h =
    rw (integer_text-ascii [] after ds d hb ha h.0 h.1)
      (int_of-ascii [] after d ds (number_from d ds) hb ha h)
parse_retry-ascii parse_date now (c ∷ cs) after ds d hb ha h =
    rw (integer_text-ascii (c ∷ cs) after ds d hb ha h.0 h.1)
      (int_of-ascii (c ∷ cs) after d ds (number_from d ds) hb ha h)

-- A header that is no number and parses as a date gives the whole seconds up to that date, and 0
-- once it has passed; one that parses as neither gives 0; and what the date raises is raised.
pub parse_retry-date :
    (parse_date : List ℕ → Result Exception (Option ℕ)) (now : ℕ) (c : ℕ) (cs : List ℕ)
    → integer_text (c ∷ cs) ≡ none
    → (parse_date (c ∷ cs) ≡ ok none → parse_retry parse_date now (some (c ∷ cs)) ≡ ok 0)
      × ((e : Exception)
          → parse_date (c ∷ cs) ≡ err e
          → parse_retry parse_date now (some (c ∷ cs)) ≡ err e)
      × ((date : ℕ)
          → parse_date (c ∷ cs) ≡ ok (some date)
          → parse_retry parse_date now (some (c ∷ cs)) ≡ ok ((date * unit - now) / unit))
unfolding parse_retry
parse_retry-date parse_date now c cs h =
    (λ e. rw (h, e) refl, λ x e. rw (h, e) refl, λ date e. rw (h, e) refl)
