-- ===== src/Text/Document.antt =====
-- Sentences written back with blanks between them are read again: the round trip behind an edit.
use network_doc.Base.{
  ℕ, ◌+◌, ◌-◌, ◌≤◌, ◌<◌, ◌≡◌, refl, ap, ◌∙◌, inl, inr, true, List, [], ◌∷◌, ◌++◌, append-nil,
  append_assoc, arith, lt→ltb, Bool-cases, length, length-append, take_all, CString,
}
use network_doc.Text.{
  is_delimiter, max_sentence, end_sentence, last_sentence, sentence_loop, parse_sentences,
  join_loop, join,
}
use network_doc.Text.Trim.{trim_id, trim-blank}
use network_doc.Text.Join.{spaced, join-cons}
use network_doc.Text.Sentences.{EndsOnly, IsSentence}

-- The last character is a delimiter.
abbrev pub Terminated : CString → Type 0
Terminated [] = ⊥
Terminated (c ∷ []) = is_delimiter c ≡ true
Terminated (c ∷ d ∷ s) = Terminated (d ∷ s)

-- Sentences, each with room for one more byte, of which all but the last are terminated.
abbrev pub IsDocument : List CString → Type 0
IsDocument [] = Unit
IsDocument (s ∷ []) = IsSentence s × (length s < max_sentence - 1)
IsDocument (s ∷ t ∷ rest) =
    IsSentence s × (length s < max_sentence - 1) × Terminated s × IsDocument (t ∷ rest)

module _ (max : ℕ) where
  -- The loop collects the characters of a sentence up to its delimiter.
  sentence_loop-Terminated :
      (s rest cur : CString) (out : List CString)
      → EndsOnly s
      → Terminated s
      → length cur + length s < max_sentence
      → length out < max
      → sentence_loop max (s ++ rest) cur out
        ≡ sentence_loop max rest [] (end_sentence (cur ++ s) out)
  unfolding sentence_loop
  sentence_loop-Terminated [] rest cur out e t fits room = absurd t
  sentence_loop-Terminated (c ∷ []) rest cur out e t fits room =
      rw (lt→ltb (length out) max room, t, lt→ltb (length cur) 1023 (omega arith)) refl
  sentence_loop-Terminated (c ∷ d ∷ s) rest cur out e t fits room =
      rw (lt→ltb (length out) max room, e.0, lt→ltb (length cur) 1023 (omega arith))
        (sentence_loop-Terminated (d ∷ s) rest (cur ++ c ∷ []) out e.1 t
            (omega (arith, length-append {0} cur (c ∷ []))) room
          ∙ ap (λ x. sentence_loop max rest [] (end_sentence x out))
              (append_assoc cur (c ∷ []) (d ∷ s)))

  -- The last sentence need not be terminated.
  sentence_loop-last :
      (s cur : CString) (out : List CString)
      → EndsOnly s
      → 0 < length s
      → length cur + length s < max_sentence
      → length out < max
      → sentence_loop max s cur out ≡ end_sentence (cur ++ s) out
  unfolding sentence_loop last_sentence
  sentence_loop-last [] cur out e text fits room = absurd (omega arith)
  sentence_loop-last (c ∷ []) cur out e text fits room = elim (Bool-cases (is_delimiter c)) [
    | inl stop ↦
        rw (lt→ltb (length out) max room, stop, lt→ltb (length cur) 1023 (omega arith)) refl
    | inr other ↦
        rw
          (
            lt→ltb (length out) max room,
            other,
            lt→ltb (length cur) 1023 (omega arith),
            lt→ltb 0 (length (cur ++ c ∷ [])) (omega (arith, length-append {0} cur (c ∷ []))),
            lt→ltb (length out) max room,
          )
          refl
  ]
  sentence_loop-last (c ∷ d ∷ s) cur out e text fits room =
      rw (lt→ltb (length out) max room, e.0, lt→ltb (length cur) 1023 (omega arith))
        (sentence_loop-last (d ∷ s) (cur ++ c ∷ []) out e.1 (omega arith)
            (omega (arith, length-append {0} cur (c ∷ []))) room
          ∙ ap (λ x. end_sentence x out) (append_assoc cur (c ∷ []) (d ∷ s)))

end_sentence-append :
    (s : CString) (out : List CString) → IsSentence s → end_sentence s out ≡ out ++ s ∷ []
unfolding end_sentence
end_sentence-append s out h =
    rw
      (
        trim_id s h.starts h.ends,
        lt→ltb 0 (length s) h.nonempty,
        take_all 1023 s (omega (arith, h.fits)),
      )
      refl

end_sentence-blank :
    (s : CString) (out : List CString) → IsSentence s → end_sentence (32 ∷ s) out ≡ out ++ s ∷ []
unfolding end_sentence
end_sentence-blank s out h = rw (trim-blank s) (unfold end_sentence in end_sentence-append s out h)

module _ (max : ℕ) where
  sentence_loop-blank :
      (rest : CString) (out : List CString)
      → length out < max
      → sentence_loop max (32 ∷ rest) [] out ≡ sentence_loop max rest (32 ∷ []) out
  unfolding sentence_loop is_delimiter
  sentence_loop-blank rest out room = rw (lt→ltb (length out) max room) refl

  sentence_loop-spaced :
      (ss out : List CString)
      → IsDocument ss
      → length out + length ss ≤ max
      → sentence_loop max (spaced ss) [] out ≡ out ++ ss
  unfolding sentence_loop last_sentence
  sentence_loop-spaced [] out h room = rw append-nil
  sentence_loop-spaced (s ∷ []) out h room = rw append-nil (
      sentence_loop-blank s out (omega arith)
      ∙ sentence_loop-last max s (32 ∷ []) out h.0.delimited h.0.nonempty (omega (arith, h.1))
          (omega arith)
      ∙ end_sentence-blank s out h.0)
  sentence_loop-spaced (s ∷ t ∷ ss) out h room =
      sentence_loop-blank (s ++ spaced (t ∷ ss)) out (omega arith)
      ∙ sentence_loop-Terminated max s (spaced (t ∷ ss)) (32 ∷ []) out h.0.delimited h.2
          (omega (arith, h.1)) (omega arith)
      ∙ ap (sentence_loop max (spaced (t ∷ ss)) []) (end_sentence-blank s out h.0)
      ∙ sentence_loop-spaced (t ∷ ss) (out ++ s ∷ []) h.3
          (omega (arith, length-append out (s ∷ [])))
      ∙ append_assoc out (s ∷ []) (t ∷ ss)

-- At most `max` sentences that form a document, joined with blanks, are read back by
-- `parse_sentences` as they were.
pub parse_sentences-join :
    (ss : List CString) (max : ℕ)
    → IsDocument ss
    → length ss ≤ max
    → parse_sentences (join ss) max ≡ ss
unfolding parse_sentences join join_loop sentence_loop last_sentence
parse_sentences-join [] max h room = refl
parse_sentences-join (s ∷ []) max h room =
    rw (join-cons s [], append-nil s)
      (sentence_loop-last max s [] [] h.0.delimited h.0.nonempty (omega (arith, h.0.fits))
          (omega arith)
        ∙ end_sentence-append s [] h.0)
parse_sentences-join (s ∷ t ∷ ss) max h room = rw (join-cons s (t ∷ ss)) (
    sentence_loop-Terminated max s (spaced (t ∷ ss)) [] [] h.0.delimited h.2
      (omega (arith, h.0.fits)) (omega arith)
    ∙ ap (sentence_loop max (spaced (t ∷ ss)) []) (end_sentence-append s [] h.0)
    ∙ sentence_loop-spaced max (t ∷ ss) (s ∷ []) h.3 (omega arith))
