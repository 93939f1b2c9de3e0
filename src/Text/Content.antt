-- ===== src/Text/Content.antt =====
-- Parsing loses no text: within the bounds of the buffers, the characters that are no white space are
-- those of the sentences, in order.
use network_doc.Base.{
  ℕ, ◌+◌, ◌<◌, ◌≡◌, refl, sym, ap, ◌∙◌, inl, inr, false, List, [], ◌∷◌, ◌++◌, append-nil,
  append_assoc, arith, ltb, lt→ltb, Bool-cases, length, length-append, take_all, CString,
}
use network_doc.Text.{
  is_delimiter, max_sentence, trim, end_sentence, last_sentence, sentence_loop, parse_sentences,
}
use network_doc.Text.Trim.{solid, solid-trim, length-trim-le}
use network_doc.Text.Sentences.{length-end_sentence}

-- The sentences one after another.
pub concat : List CString → CString
concat [] = []
concat (s ∷ ss) = s ++ concat ss

solid-append : (s t : CString) → solid (s ++ t) ≡ solid s ++ solid t
solid-append [] t = refl
solid-append (c ∷ s) t = ground (arith, solid-append s t)

concat-append : (ss : List CString) (s : CString) → concat (ss ++ s ∷ []) ≡ concat ss ++ s
unfolding concat
concat-append [] s = append-nil s
concat-append (x ∷ ss) s = rw (concat-append ss s) (sym (append_assoc x (concat ss) s))

solid-nil : (s : CString) → ltb 0 (length s) ≡ false → solid s ≡ []
solid-nil [] h = refl
solid-nil (c ∷ s) h = cc (lt→ltb 0 (length (c ∷ s)) (omega arith))

solid-end_sentence :
    (s : CString) (out : List CString)
    → length s < max_sentence
    → solid (concat (end_sentence s out)) ≡ solid (concat out) ++ solid s
unfolding end_sentence
solid-end_sentence s out fits = elim (Bool-cases (ltb 0 (length (trim s)))) [
  | inl text ↦
      rw
        (
          text,
          take_all 1023 (trim s) (omega (arith, length-trim-le s)),
          concat-append out (trim s),
          solid-append (concat out) (trim s),
          solid-trim s,
        )
        refl
  | inr blank ↦
      rw (blank, ← solid-trim s, solid-nil (trim s) blank, append-nil (solid (concat out))) refl
]

solid-sentence_loop :
    (max : ℕ) (content s : CString) (out : List CString)
    → length s + length content < max_sentence
    → length out + length content < max
    → solid (concat (sentence_loop max content s out))
      ≡ solid (concat out) ++ (solid s ++ solid content)
unfolding sentence_loop last_sentence
solid-sentence_loop max [] s out fits room = elim (Bool-cases (ltb 0 (length s))) [
  | inl text ↦
      rw (text, lt→ltb (length out) max (omega arith), append-nil (solid s))
        (solid-end_sentence s out (omega arith))
  | inr blank ↦ rw (blank, solid-nil s blank, append-nil (solid (concat out))) refl
]
solid-sentence_loop max (c ∷ content) s out fits room =
    rw (lt→ltb (length out) max (omega arith), lt→ltb (length s) 1023 (omega arith))
      (elim (Bool-cases (is_delimiter c)) [
        | inl stop ↦
            let pushed = s ++ c ∷ [] in
            rw stop (
              solid-sentence_loop max content [] (end_sentence pushed out) (omega arith)
                (omega (arith, length-end_sentence pushed out))
              ∙ ap (λ x. x ++ solid content)
                  (solid-end_sentence pushed out (omega (arith, length-append {0} s (c ∷ []))))
              ∙ tail_lem)
        | inr other ↦ rw other (
            solid-sentence_loop max content (s ++ c ∷ []) out
              (omega (arith, length-append {0} s (c ∷ []))) (omega arith)
            ∙ ap (λ x. solid (concat out) ++ x) one_more)
      ])
  where
    one_more : solid (s ++ c ∷ []) ++ solid content ≡ solid s ++ solid (c ∷ content)
    one_more =
        rw (solid-append s (c ∷ []), append_assoc (solid s) (solid (c ∷ [])) (solid content))
          (ap (λ x. solid s ++ x) (sym (solid-append (c ∷ []) content)))

    tail_lem :
        (solid (concat out) ++ solid (s ++ c ∷ [])) ++ solid content
        ≡ solid (concat out) ++ (solid s ++ solid (c ∷ content))
    tail_lem =
        append_assoc (solid (concat out)) (solid (s ++ c ∷ [])) (solid content)
        ∙ ap (λ x. solid (concat out) ++ x) one_more

-- Of a content shorter than one sentence buffer, with fewer characters than sentences allowed,
-- every character that is no white space is kept, in order.
pub solid-parse_sentences :
    (content : CString) (max : ℕ)
    → length content < max_sentence
    → length content < max
    → solid (concat (parse_sentences content max)) ≡ solid content
unfolding parse_sentences concat
solid-parse_sentences content max fits room =
    solid-sentence_loop max content [] [] (omega arith) (omega arith)
