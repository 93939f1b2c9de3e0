-- ===== src/Format.antt =====
-- The conversions of sscanf and snprintf that the program uses, on C strings. A conversion that reads
-- returns what it stores and the unread rest, and `none` where it does not match. A number that does
-- not fit an int has no defined result in C; the model keeps the number.
pub mod RoundTrip
pub mod Fields
use network_doc.Base.{
  length, ℕ, zero, suc, ◌+◌, ◌-◌, ◌*◌, ◌/◌, ◌%◌, Bool, true, false, not, ◌&&◌, ◌||◌, Option, none,
  some, [], ◌∷◌, ltb, leb, ◌==◌, if◌then◌else◌, CString, ℤ, pos, negsuc,
}

-- isspace in the C locale
unfoldable pub is_blank : ℕ → Bool
is_blank c = c == 32 || (leb 9 c && leb c 13)

unfoldable pub is_digit : ℕ → Bool
is_digit c = leb b'0' c && leb c b'9'

unfoldable pub skip_blanks : CString → CString
skip_blanks [] = []
skip_blanks (c ∷ s) = let rest = skip_blanks s in if is_blank c then rest else c ∷ s

-- The digits from here on, behind the number n that those before spell.
unfoldable pub scan_digits : ℕ → CString → ℕ × CString
scan_digits n [] = (n, [])
scan_digits n (c ∷ s) =
    let rest = scan_digits (n * 10 + (c - b'0')) s in if is_digit c then rest else (n, c ∷ s)

unfoldable pub scan_nat : CString → Option (ℕ × CString)
scan_nat [] = none
scan_nat (c ∷ s) = if is_digit c then some (scan_digits 0 (c ∷ s)) else none

abbrev pub negate : ℕ → ℤ
negate zero = pos 0
negate (suc n) = negsuc n

abbrev pub signed : (ℕ → ℤ) → Option (ℕ × CString) → Option (ℤ × CString)
signed f none = none
signed f (some (n, rest)) = some (f n, rest)

unfoldable pub scan_sign : CString → Option (ℤ × CString)
scan_sign [] = none
scan_sign (c ∷ s) =
    if c == b'-'
    then signed negate (scan_nat s)
    else if c == b'+'
    then signed pos (scan_nat s)
    else signed pos (scan_nat (c ∷ s))

-- "%d"
unfoldable pub scan_int : CString → Option (ℤ × CString)
scan_int s = scan_sign (skip_blanks s)

-- "c%d"
unfoldable pub scan_char_int : ℕ → CString → Option (ℤ × CString)
scan_char_int c [] = none
scan_char_int c (d ∷ s) = if d == c then scan_int s else none

-- The longest prefix whose characters pass the test, and the rest.
unfoldable pub span : (ℕ → Bool) → CString → CString × CString
span p [] = ([], [])
span p (c ∷ s) = let (run, rest) = span p s in if p c then (c ∷ run, rest) else ([], c ∷ s)

abbrev pub or_none : CString × CString → Option (CString × CString)
or_none ([], rest) = none
or_none (c ∷ run, rest) = some (c ∷ run, rest)

-- "%[^c]"
unfoldable pub scan_until : ℕ → CString → Option (CString × CString)
scan_until c s = or_none (span (λ d. not (d == c)) s)

-- "%s"
unfoldable pub scan_word : CString → Option (CString × CString)
scan_word s = or_none (span (λ d. not (is_blank d)) (skip_blanks s))

-- "c%s"
unfoldable pub scan_char_word : ℕ → CString → Option (CString × CString)
scan_char_word c [] = none
scan_char_word c (d ∷ s) = if d == c then scan_word s else none

-- The decimal digits of n before `out`, on fuel.
unfoldable pub decimal : ℕ → ℕ → CString → CString
decimal zero n out = out
decimal (suc fuel) n out =
    let rest = decimal fuel (n / 10) ((b'0' + n % 10) ∷ out) in
    if ltb n 10 then (b'0' + n) ∷ out else rest

-- n has fewer than n + 1 digits.
unfoldable pub show_nat : ℕ → CString
show_nat n = decimal (n + 1) n []

-- "%d"
unfoldable pub show_int : ℤ → CString
show_int (pos n) = show_nat n
show_int (negsuc n) = b'-' ∷ show_nat (suc n)

-- strstr(text, part) != NULL
unfoldable pub starts_with : CString → CString → Bool
starts_with [] text = true
starts_with (c ∷ part) [] = false
starts_with (c ∷ part) (d ∷ text) = c == d && starts_with part text

unfoldable pub contains : CString → CString → Bool
contains part [] = starts_with part []
contains part (c ∷ text) = starts_with part (c ∷ text) || contains part text

-- Whether "%[^|]|%s" overruns its two arrays, of the sizes given.
unfoldable pub command_overflows : ℕ → ℕ → CString × CString → Bool
command_overflows cmd_size param_size (cmd, rest) =
    leb cmd_size (length cmd) || elim (scan_char_word b'|' rest) [
      | none ↦ false
      | some (param, _) ↦ leb param_size (length param)
    ]
