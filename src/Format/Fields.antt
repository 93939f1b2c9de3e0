-- ===== src/Format/Fields.antt =====
-- What "%[^c]" and "%s" read of a field that ends where they stop.
use network_doc.Base.{
  ℕ, ◌<◌, ◌≡◌, refl, true, false, not, some, [], ◌∷◌, ◌++◌, arith, ◌==◌, length, ==_refl, All,
  CString,
}
use network_doc.Format.{is_blank, skip_blanks, or_none, span, scan_until, scan_word}

pub or_none-some : (run rest : CString) → 0 < length run → or_none (run, rest) ≡ some (run, rest)
or_none-some [] rest h = absurd (omega arith)
or_none-some (c ∷ run) rest h = refl

span-field :
    (bar : ℕ) (field rest : CString)
    → All (λ c. not (c == bar) ≡ true) field
    → span (λ c. not (c == bar)) (field ++ (bar ∷ rest)) ≡ (field, bar ∷ rest)
unfolding span
span-field bar [] rest h = rw (==_refl bar) refl
span-field bar (c ∷ field) rest h = rw (span-field bar field rest h.1, h.0) refl

-- A field that is not empty is read up to the bar.
pub scan_until-field :
    (bar : ℕ) (field rest : CString)
    → All (λ c. not (c == bar) ≡ true) field
    → 0 < length field
    → scan_until bar (field ++ (bar ∷ rest)) ≡ some (field, bar ∷ rest)
unfolding scan_until
scan_until-field bar field rest h l =
    rw (span-field bar field rest h) (or_none-some field (bar ∷ rest) l)

span-word :
    (text : CString)
    → All (λ c. is_blank c ≡ false) text
    → span (λ c. not (is_blank c)) text ≡ (text, [])
unfolding span
span-word [] h = refl
span-word (c ∷ text) h = rw (span-word text h.1, h.0) refl

-- A text without blanks is one word.
pub scan_word-all :
    (text : CString)
    → 0 < length text
    → All (λ c. is_blank c ≡ false) text
    → scan_word text ≡ some (text, [])
unfolding scan_word skip_blanks
scan_word-all [] l h = absurd (omega arith)
scan_word-all (c ∷ text) l h = rw (h.0, span-word (c ∷ text) h) refl
