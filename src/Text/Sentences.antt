-- ===== src/Text/Sentences.antt =====
-- What `parse_sentences` returns.
use network_doc.Base.{
  ℕ, ◌+◌, ◌≤◌, ◌<◌, ◌≡◌, refl, ◌⊎◌, inl, inr, true, false, ◌&&◌, List, [], ◌∷◌, ◌++◌, arith, ltb,
  ltb→lt, Bool-cases, length, take, length-append, take_all, All, All-append, CString,
}
use network_doc.Text.{
  is_space, is_delimiter, max_sentence, trim_start, cons_trimmed, trim_end, keep_first, trim, push,
  end_sentence, last_sentence, sentence_loop, parse_sentences,
}
use network_doc.Text.Trim.{starts_solid, ends_solid, trim-solid_ends, length-trim-le}

-- A delimiter can only be the last character.
abbrev pub EndsOnly : CString → Type 0
EndsOnly [] = Unit
EndsOnly (c ∷ []) = Unit
EndsOnly (c ∷ d ∷ s) = (is_delimiter c ≡ false) × EndsOnly (d ∷ s)

-- A sentence fills at most its array, has no white space at its ends, and a delimiter ends it.
pub record IsSentence (s : CString) : Type 0 where
  pub nonempty : 0 < length s
  pub fits : length s < max_sentence
  pub starts : starts_solid s ≡ true
  pub ends : ends_solid s ≡ true
  pub delimited : EndsOnly s

EndsOnly-tail : (c : ℕ) (s : CString) → EndsOnly (c ∷ s) → EndsOnly s
EndsOnly-tail c [] h = tt
EndsOnly-tail c (d ∷ s) h = h.1

EndsOnly-trim_start : (s : CString) → EndsOnly s → EndsOnly (trim_start s)
unfolding trim_start
EndsOnly-trim_start [] h = tt
EndsOnly-trim_start (c ∷ s) h = elim (Bool-cases (is_space c)) [
  | inl blank ↦ rw blank (EndsOnly-trim_start s (EndsOnly-tail c s h))
  | inr other ↦ rw other h
]

EndsOnly-cons_trimmed : (c : ℕ) (s : CString) → EndsOnly (c ∷ s) → EndsOnly (cons_trimmed c s)
EndsOnly-cons_trimmed c [] h = elim (Bool-cases (is_space c)) [ inl e ↦ rw e tt | inr e ↦ rw e tt ]
EndsOnly-cons_trimmed c (d ∷ s) h = h

-- Cutting the end off leaves a delimiter nowhere else.
EndsOnly-cons-trim_end : (c : ℕ) (s : CString) → EndsOnly (c ∷ s) → EndsOnly (c ∷ trim_end s)
unfolding trim_end
EndsOnly-cons-trim_end c [] h = tt
EndsOnly-cons-trim_end c (d ∷ s) h = go (trim_end s) (EndsOnly-cons-trim_end d s h.1)
  where
    go : (r : CString) → EndsOnly (d ∷ r) → EndsOnly (c ∷ cons_trimmed d r)
    go [] k = elim (Bool-cases (is_space d)) [ inl e ↦ rw e tt | inr e ↦ rw e (h.0, tt) ]
    go (x ∷ r) k = (h.0, k)

EndsOnly-keep_first : (s : CString) → EndsOnly s → EndsOnly (keep_first s)
EndsOnly-keep_first [] h = tt
EndsOnly-keep_first (c ∷ s) h = EndsOnly-cons-trim_end c s h

EndsOnly-trim : (s : CString) → EndsOnly s → EndsOnly (trim s)
unfolding trim
EndsOnly-trim s h = EndsOnly-keep_first (trim_start s) (EndsOnly-trim_start s h)

abbrev pub IsPlain : CString → Type 0
IsPlain = All (λ c. is_delimiter c ≡ false)

EndsOnly-append : (s : CString) (c : ℕ) → IsPlain s → EndsOnly (s ++ c ∷ [])
EndsOnly-append [] c h = tt
EndsOnly-append (a ∷ []) c h = (h.0, tt)
EndsOnly-append (a ∷ b ∷ s) c h = (h.0, EndsOnly-append (b ∷ s) c h.1)

pub EndsOnly-plain : (s : CString) → IsPlain s → EndsOnly s
EndsOnly-plain [] h = tt
EndsOnly-plain (c ∷ []) h = tt
EndsOnly-plain (c ∷ d ∷ s) h = (h.0, EndsOnly-plain (d ∷ s) h.1)

-- What `current` holds inside the loop, and once a character has been pushed.
pub record IsPartial (s : CString) : Type 0 where
  pub fits : length s < max_sentence
  pub plain : IsPlain s

pub record IsEnding (s : CString) : Type 0 where
  pub fits : length s < max_sentence
  pub ends_only : EndsOnly s

pub nil-IsPartial : IsPartial []
nil-IsPartial = record { fits = omega arith; plain = tt }

pub push-IsPartial :
    (c : ℕ) (s : CString) → is_delimiter c ≡ false → IsPartial s → IsPartial (push max_sentence s c)
push-IsPartial c s h p = elim (Bool-cases (ltb (length s) 1023)) [
  | inl room ↦ rw room (record {
    fits = omega (arith, length-append {0} s (c ∷ []), ltb→lt (length s) 1023 room);
    plain = All-append _ s (c ∷ []) p.plain (h, tt);
  })
  | inr full ↦ rw full p
]

pub push-IsEnding : (c : ℕ) (s : CString) → IsPartial s → IsEnding (push max_sentence s c)
push-IsEnding c s p = elim (Bool-cases (ltb (length s) 1023)) [
  | inl room ↦ rw room (record {
    fits = omega (arith, length-append {0} s (c ∷ []), ltb→lt (length s) 1023 room);
    ends_only = EndsOnly-append s c p.plain;
  })
  | inr full ↦ rw full (record { fits = p.fits; ends_only = EndsOnly-plain s p.plain })
]

pub trim-IsSentence :
    (s : CString) → IsEnding s → ltb 0 (length (trim s)) ≡ true → IsSentence (trim s)
trim-IsSentence s p some_text = record {
  nonempty = ltb→lt 0 _ some_text;
  fits = omega (arith, p.fits, length-trim-le s);
  starts = (trim-solid_ends s).0;
  ends = (trim-solid_ends s).1;
  delimited = EndsOnly-trim s p.ends_only;
}

-- The end of a sentence adds the trimmed characters, if any are left.
pub end_sentence-cases :
    (s : CString) (out : List CString)
    → IsEnding s
    → (end_sentence s out ≡ out) ⊎ (IsSentence (trim s) × (end_sentence s out ≡ out ++ trim s ∷ []))
unfolding end_sentence
end_sentence-cases s out p = elim (Bool-cases (ltb 0 (length (trim s)))) [
  | inr blank ↦ inl (rw blank refl)
  | inl text ↦ inr (
    trim-IsSentence s p text,
    rw (text, take_all 1023 (trim s) (omega (arith, p.fits, length-trim-le s))) refl,
  )
]

pub end_sentence-IsSentence :
    (s : CString) (out : List CString)
    → IsEnding s
    → All IsSentence out
    → All IsSentence (end_sentence s out)
end_sentence-IsSentence s out p h = elim (end_sentence-cases s out p) [
  | inl e ↦ rw e h
  | inr (i, e) ↦ rw e (All-append IsSentence out (trim s ∷ []) h (i, tt))
]

pub last_sentence-IsSentence :
    (max : ℕ) (s : CString) (out : List CString)
    → IsPartial s
    → All IsSentence out
    → All IsSentence (last_sentence max s out)
unfolding last_sentence
last_sentence-IsSentence max s out p h =
    elim (Bool-cases (ltb 0 (length s) && ltb (length out) max)) [
      | inl room ↦ rw room (
          end_sentence-IsSentence s out
            (record { fits = p.fits; ends_only = EndsOnly-plain s p.plain }) h)
      | inr full ↦ rw full h
    ]

sentence_loop-IsSentence :
    (max : ℕ) (content s : CString) (out : List CString)
    → IsPartial s
    → All IsSentence out
    → All IsSentence (sentence_loop max content s out)
unfolding sentence_loop
sentence_loop-IsSentence max [] s out p h = last_sentence-IsSentence max s out p h
sentence_loop-IsSentence max (c ∷ content) s out p h = elim (Bool-cases (ltb (length out) max)) [
  | inr full ↦ rw full (unfold last_sentence in ground (arith, h))
  | inl room ↦ rw room (elim (Bool-cases (is_delimiter c)) [
    | inl stop ↦ rw stop (
        sentence_loop-IsSentence max content [] (end_sentence (push max_sentence s c) out)
          nil-IsPartial
          (end_sentence-IsSentence (push max_sentence s c) out (push-IsEnding c s p) h))
    | inr other ↦ rw other (
        sentence_loop-IsSentence max content (push max_sentence s c) out
          (push-IsPartial c s other p) h)
  ])
]

pub length-end_sentence :
    (s : CString) (out : List CString) → length (end_sentence s out) ≤ length out + 1
unfolding end_sentence
length-end_sentence s out = ground (arith, length-append out (take 1023 (trim s) ∷ []))

length-last_sentence :
    (max : ℕ) (s : CString) (out : List CString)
    → length out ≤ max
    → length (last_sentence max s out) ≤ max
unfolding last_sentence
length-last_sentence max s out h = ground (arith, length-end_sentence s out)

length-sentence_loop :
    (max : ℕ) (content s : CString) (out : List CString)
    → length out ≤ max
    → length (sentence_loop max content s out) ≤ max
unfolding sentence_loop
length-sentence_loop max [] s out h = length-last_sentence max s out h
length-sentence_loop max (c ∷ content) s out h = elim (Bool-cases (ltb (length out) max)) [
  | inr full ↦ rw full (length-last_sentence max s out h)
  | inl room ↦ rw room (elim (Bool-cases (is_delimiter c)) [
    | inl stop ↦ rw stop (
        length-sentence_loop max content [] (end_sentence (push max_sentence s c) out)
          (omega (arith, length-end_sentence (push max_sentence s c) out, ltb→lt _ _ room)))
    | inr other ↦ rw other (length-sentence_loop max content (push max_sentence s c) out h)
  ])
]

-- `parse_sentences` returns at most `max` strings, and each is nonempty, fits its array of
-- MAX_SENTENCE bytes, has no white space at its ends and no delimiter before its last character.
pub parse_sentences-IsSentence :
    (content : CString) (max : ℕ)
    → All IsSentence (parse_sentences content max) × (length (parse_sentences content max) ≤ max)
unfolding parse_sentences
parse_sentences-IsSentence content max = (
  sentence_loop-IsSentence max content [] [] nil-IsPartial tt,
  length-sentence_loop max content [] [] (omega arith),
)
