-- ===== src/Text/Normal.antt =====
-- Parsing a short content gives a document, so that writing the sentences back is a normal form.
use network_doc.Base.{
  ℕ, ◌+◌, ◌-◌, ◌<◌, ◌≡◌, refl, inl, inr, true, false, ◌&&◌, List, [], ◌∷◌, ◌++◌, arith, ltb, lt→ltb,
  Bool-cases, length, length-append, All, All-append, CString,
}
use network_doc.Text.{
  is_space, is_delimiter, max_sentence, trim_start, keep_first, trim, push, end_sentence,
  last_sentence, sentence_loop, parse_sentences,
}
use network_doc.Text.Trim.{ends_solid, length-trim-le, trim_end_id, ends-tail}
use network_doc.Text.Sentences.{
  IsSentence, EndsOnly-plain, IsPartial, IsEnding, nil-IsPartial, push-IsPartial, push-IsEnding,
  end_sentence-cases,
}
use network_doc.Text.Document.{Terminated, IsDocument}

Terminated-append : (s : CString) (c : ℕ) → is_delimiter c ≡ true → Terminated (s ++ c ∷ [])
Terminated-append [] c h = h
Terminated-append (a ∷ []) c h = h
Terminated-append (a ∷ b ∷ s) c h = Terminated-append (b ∷ s) c h

blank-not-delimiter : (c : ℕ) → is_delimiter c ≡ true → is_space c ≡ false
unfolding is_space is_delimiter
blank-not-delimiter c h = ground arith

Terminated-ends : (s : CString) → Terminated s → ends_solid s ≡ true
Terminated-ends [] h = absurd h
Terminated-ends (c ∷ []) h = rw (blank-not-delimiter c h) refl
Terminated-ends (c ∷ d ∷ s) h = Terminated-ends (d ∷ s) h

Terminated-trim_start : (s : CString) → Terminated s → Terminated (trim_start s)
unfolding trim_start
Terminated-trim_start [] h = absurd h
Terminated-trim_start (c ∷ []) h = rw (blank-not-delimiter c h) h
Terminated-trim_start (c ∷ d ∷ s) h = elim (Bool-cases (is_space c)) [
  | inl blank ↦ rw (blank, trim_start) (Terminated-trim_start (d ∷ s) h)
  | inr other ↦ rw (other, trim_start) h
]

Terminated-keep_first : (s : CString) → Terminated s → Terminated (keep_first s)
Terminated-keep_first [] h = absurd h
Terminated-keep_first (c ∷ s) h = rw (trim_end_id s (ends-tail c s (Terminated-ends (c ∷ s) h))) h

Terminated-trim : (s : CString) → Terminated s → Terminated (trim s)
unfolding trim
Terminated-trim s h = Terminated-keep_first (trim_start s) (Terminated-trim_start s h)

-- A sentence that a delimiter ended, with room for one more byte.
record IsComplete (s : CString) : Type 0 where
  sentence : IsSentence s
  short : length s < max_sentence - 1
  terminated : Terminated s

Document-complete : (ss : List CString) → All IsComplete ss → IsDocument ss
Document-complete [] h = tt
Document-complete (s ∷ []) h = (h.0.sentence, h.0.short)
Document-complete (s ∷ t ∷ ss) h =
    (h.0.sentence, h.0.short, h.0.terminated, Document-complete (t ∷ ss) h.1)

Document-append :
    (ss : List CString) (s : CString)
    → All IsComplete ss
    → IsSentence s
    → length s < max_sentence - 1
    → IsDocument (ss ++ s ∷ [])
Document-append [] s h i l = (i, l)
Document-append (t ∷ []) s h i l = (h.0.sentence, h.0.short, h.0.terminated, (i, l))
Document-append (t ∷ u ∷ ss) s h i l =
    (h.0.sentence, h.0.short, h.0.terminated, Document-append (u ∷ ss) s h.1 i l)

end_sentence-IsComplete :
    (s : CString) (out : List CString)
    → IsEnding s
    → length s < max_sentence - 1
    → Terminated s
    → All IsComplete out
    → All IsComplete (end_sentence s out)
end_sentence-IsComplete s out p short t h = elim (end_sentence-cases s out p) [
  | inl e ↦ rw e h
  | inr (i, e) ↦ rw e (
      All-append IsComplete out (trim s ∷ []) h (
        record {
          sentence = i;
          short = omega (arith, length-trim-le s);
          terminated = Terminated-trim s t;
        },
        tt,
      ))
]

end_sentence-IsDocument :
    (s : CString) (out : List CString)
    → IsEnding s
    → length s < max_sentence - 1
    → All IsComplete out
    → IsDocument (end_sentence s out)
end_sentence-IsDocument s out p short h = elim (end_sentence-cases s out p) [
  | inl e ↦ rw e (Document-complete out h)
  | inr (i, e) ↦ rw e (Document-append out (trim s) h i (omega (arith, length-trim-le s)))
]

IsPartial-IsEnding : (c : ℕ) (s : CString) → IsPartial s → length s < max_sentence - 1 → IsEnding s
IsPartial-IsEnding c s p short = record { fits = p.fits; ends_only = EndsOnly-plain s p.plain }

last_sentence-IsDocument :
    (max : ℕ) (s : CString) (out : List CString)
    → IsPartial s
    → length s < max_sentence - 1
    → All IsComplete out
    → IsDocument (last_sentence max s out)
unfolding last_sentence
last_sentence-IsDocument max s out p short h =
    elim (Bool-cases (ltb 0 (length s) && ltb (length out) max)) [
      | inl room ↦ rw room (end_sentence-IsDocument s out (IsPartial-IsEnding 0 s p short) short h)
      | inr full ↦ rw full (Document-complete out h)
    ]

sentence_loop-IsDocument :
    (max : ℕ) (content s : CString) (out : List CString)
    → IsPartial s
    → length s + length content < max_sentence - 1
    → All IsComplete out
    → IsDocument (sentence_loop max content s out)
unfolding sentence_loop
sentence_loop-IsDocument max [] s out p short h =
    last_sentence-IsDocument max s out p (omega arith) h
sentence_loop-IsDocument max (c ∷ content) s out p short h =
    elim (Bool-cases (ltb (length out) max)) [
      | inr full ↦ rw full (last_sentence-IsDocument max s out p (omega arith) h)
      | inl room ↦
          let room' = lt→ltb (length s) 1023 (omega arith) in
          let grown = length-append s (c ∷ []) in
          rw room (elim (Bool-cases (is_delimiter c)) [
            | inl stop ↦ rw stop (
                sentence_loop-IsDocument max content [] (end_sentence (push max_sentence s c) out)
                  nil-IsPartial (omega arith)
                  (end_sentence-IsComplete (push max_sentence s c) out (push-IsEnding c s p)
                    (rw room' (omega (arith, grown))) (rw room' (Terminated-append s c stop)) h))
            | inr other ↦ rw other (
                sentence_loop-IsDocument max content (push max_sentence s c) out
                  (push-IsPartial c s other p) (rw room' (omega (arith, grown))) h)
          ])
    ]

-- The sentences of a content of less than 1023 bytes, one less than a sentence buffer can hold, form a
-- document: each is a sentence of less than 1023 bytes, and each but the last ends with a delimiter.
pub parse_sentences-IsDocument :
    (content : CString) (max : ℕ)
    → length content < max_sentence - 1
    → IsDocument (parse_sentences content max)
unfolding parse_sentences
parse_sentences-IsDocument content max short =
    sentence_loop-IsDocument max content [] [] nil-IsPartial (omega arith) tt
