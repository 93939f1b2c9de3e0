-- ===== src/Format/RoundTrip.antt =====
-- A printed int is read back.
use network_doc.Base.{
  ℕ, zero, suc, ◌+◌, ◌*◌, ◌/◌, ◌%◌, ◌<◌, ◌≡◌, refl, ap, ◌∙◌, inl, inr, true, false, some, [], ◌∷◌,
  ◌++◌, arith, ltb, ltb→lt, Bool-cases, CString, ℤ, pos, negsuc,
}
use network_doc.Format.{
  is_blank, is_digit, skip_blanks, scan_digits, scan_nat, negate, signed, scan_sign, scan_int,
  decimal, show_nat, show_int,
}

-- Nothing more of a number follows.
abbrev pub NoDigit : CString → Type 0
NoDigit [] = Unit
NoDigit (c ∷ s) = is_digit c ≡ false

scan_digits-stop : (n : ℕ) (rest : CString) → NoDigit rest → scan_digits n rest ≡ (n, rest)
unfolding scan_digits
scan_digits-stop n [] h = refl
scan_digits-stop n (c ∷ s) h = rw h refl

scan_digits-cons :
    (n d : ℕ) (s : CString) → d < 10 → scan_digits n ((b'0' + d) ∷ s) ≡ scan_digits (n * 10 + d) s
unfolding scan_digits is_digit
scan_digits-cons n d s h = ground arith

zero-add_int : (n : ℕ) → 0 * 10 + n ≡ n
zero-add_int n = omega arith

scan_digits-decimal :
    (fuel n : ℕ) (out : CString) → n < fuel → scan_digits 0 (decimal fuel n out) ≡ scan_digits n out
unfolding decimal
scan_digits-decimal zero n out h = absurd (omega arith)
scan_digits-decimal (suc fuel) n out h = elim (Bool-cases (ltb n 10)) [
  | inl small ↦
      rw small (
        scan_digits-cons 0 n out (ltb→lt n 10 small) ∙ ap (λ x. scan_digits x out) (zero-add_int n))
  | inr big ↦
      let e : n / 10 * 10 + n % 10 ≡ n = omega arith in
      rw big (
        scan_digits-decimal fuel (n / 10) ((b'0' + n % 10) ∷ out) (ground arith)
        ∙ scan_digits-cons (n / 10) (n % 10) out (omega arith)
        ∙ ap (λ x. scan_digits x out) e)
]

decimal-append :
    (fuel n : ℕ) (out rest : CString) → decimal fuel n out ++ rest ≡ decimal fuel n (out ++ rest)
unfolding decimal
decimal-append zero n out rest = refl
decimal-append (suc fuel) n out rest =
    ground (arith, decimal-append fuel (n / 10) ((b'0' + n % 10) ∷ out) rest)

-- The text starts with a digit.
abbrev StartsDigit : CString → Type 0
StartsDigit [] = ⊥
StartsDigit (c ∷ s) = is_digit c ≡ true

is_digit-add : (d : ℕ) → d < 10 → is_digit (b'0' + d) ≡ true
unfolding is_digit
is_digit-add d h = ground arith

decimal-StartsDigit :
    (fuel n : ℕ) (out : CString) → StartsDigit out → StartsDigit (decimal fuel n out)
unfolding decimal
decimal-StartsDigit zero n out h = h
decimal-StartsDigit (suc fuel) n out h = elim (Bool-cases (ltb n 10)) [
  | inl small ↦ rw small (is_digit-add n (ltb→lt n 10 small))
  | inr big ↦ rw big (
      decimal-StartsDigit fuel (n / 10) ((b'0' + n % 10) ∷ out)
        (is_digit-add (n % 10) (omega arith)))
]

show_nat-StartsDigit : (n : ℕ) (rest : CString) → StartsDigit (decimal (suc n) n rest)
unfolding decimal
show_nat-StartsDigit n rest = elim (Bool-cases (ltb n 10)) [
  | inl small ↦ rw small (is_digit-add n (ltb→lt n 10 small))
  | inr big ↦ rw big (
      decimal-StartsDigit n (n / 10) ((b'0' + n % 10) ∷ rest) (is_digit-add (n % 10) (omega arith)))
]

scan_nat-digits : (s : CString) → StartsDigit s → scan_nat s ≡ some (scan_digits 0 s)
unfolding scan_nat
scan_nat-digits [] h = absurd h
scan_nat-digits (c ∷ s) h = rw h refl

show_nat-append : (n : ℕ) (rest : CString) → show_nat n ++ rest ≡ decimal (suc n) n rest
unfolding show_nat
show_nat-append n rest = decimal-append (n + 1) n [] rest ∙ ap (λ f. decimal f n rest) (omega arith)

scan_nat-show_nat :
    (n : ℕ) (rest : CString) → NoDigit rest → scan_nat (show_nat n ++ rest) ≡ some (n, rest)
scan_nat-show_nat n rest h = rw (show_nat-append n rest) (
    scan_nat-digits _ (show_nat-StartsDigit n rest)
    ∙ ap some (scan_digits-decimal (suc n) n rest (omega arith) ∙ scan_digits-stop n rest h))

scan_sign-digit : (s : CString) → StartsDigit s → scan_int s ≡ signed pos (scan_nat s)
unfolding scan_int skip_blanks scan_sign is_blank is_digit
scan_sign-digit [] h = absurd h
scan_sign-digit (c ∷ s) h = ground arith

scan_int_minus : (s : CString) → scan_int (b'-' ∷ s) ≡ signed negate (scan_nat s)
unfolding scan_int skip_blanks scan_sign is_blank
scan_int_minus s = refl

-- An int printed by "%d" is read back by "%d", whatever follows that is no digit.
pub scan_int-show_int :
    (z : ℤ) (rest : CString) → NoDigit rest → scan_int (show_int z ++ rest) ≡ some (z, rest)
unfolding show_int
scan_int-show_int (pos n) rest h =
    scan_sign-digit _ (rw (show_nat-append n rest) (show_nat-StartsDigit n rest))
    ∙ rw (scan_nat-show_nat n rest h) refl
scan_int-show_int (negsuc n) rest h =
    scan_int_minus (show_nat (suc n) ++ rest) ∙ rw (scan_nat-show_nat (suc n) rest h) refl
