-- ===== src/Client/Args.antt =====
-- The arguments of a command: sscanf with "%s" into arrays. The outer `none` stands for a word that
-- overruns its array.
use network_doc.Base.{ℕ, Option, none, some, ◌∷◌, ltb, if◌then◌else◌, length, CString, List, []}
use network_doc.Format.{scan_word}

pub data Conversion : Type 0 where
  unmatched overrun : Conversion
  word : CString → CString → Conversion

-- "%s" into an array of n bytes
unfoldable pub scan_into : ℕ → CString → Conversion
scan_into n text = elim (scan_word text) [
  | none ↦ unmatched
  | some (w, rest) ↦ if ltb (length w) n then word w rest else overrun
]

-- "%s %s …" into arrays of the sizes given; the inner `none` is a word that is missing.
unfoldable pub scan_words : List ℕ → CString → Option (Option (List CString))
scan_words [] text = some (some [])
scan_words (n ∷ sizes) text = elim (scan_into n text) [
  | unmatched ↦ some none
  | overrun ↦ none
  | word w rest ↦ elim (scan_words sizes rest) [
    | none ↦ none
    | some none ↦ some none
    | some (some words) ↦ some (some (w ∷ words))
  ]
]

-- The same for two words.
abbrev pub two_words : Option (Option (List CString)) → Option (Option (CString × CString))
two_words none = none
two_words (some (some (a ∷ (b ∷ [])))) = some (some (a, b))
two_words (some other) = some none
