-- ===== src/Storage/Edit/Reread.antt =====
-- What is read from a file behind a word edit.
use network_doc.Base.{
  ℕ, zero, suc, ◌-◌, ◌<◌, ◌≡◌, refl, sym, ◌∙◌, some, List, [], ◌∷◌, arith, some_inj, length,
  get_elem?, set, length-set, All-set, CString, pos,
}
use mathlib.Core.Path.{subst}
use network_doc.Text.{
  max_sentence, max_words_per_sentence, max_sentences, parse_sentences, parse_words, join,
}
use network_doc.Text.Sentences.{IsSentence, parse_sentences-IsSentence}
use network_doc.Text.Document.{Terminated, IsDocument, parse_sentences-join}
use network_doc.Text.Words.{IsWord, parse_words-IsWord, parse_words-join}
use network_doc.Storage.Edit.{edited, index, rebuild, edit_content}

-- A sentence of a document may be replaced by one that is terminated if the old one is.
IsDocument-set :
    (ss : List CString) (i : ℕ) (s s' : CString)
    → IsDocument ss
    → get_elem? ss i ≡ some s
    → IsSentence s'
    → length s' < max_sentence - 1
    → (Terminated s → Terminated s')
    → IsDocument (set ss i s')
IsDocument-set [] i s s' d e h short stop = cc
IsDocument-set (x ∷ []) zero s s' d e h short stop = (h, short)
IsDocument-set (x ∷ []) (suc i) s s' d e h short stop = absurd (cc e)
IsDocument-set (x ∷ t ∷ rest) zero s s' d e h short stop =
    (h, short, stop (subst Terminated (some_inj e) d.2), d.3)
IsDocument-set (x ∷ t ∷ rest) (suc zero) s s' d e h short stop =
    (d.0, d.1, d.2, IsDocument-set (t ∷ rest) zero s s' d.3 e h short stop)
IsDocument-set (x ∷ t ∷ rest) (suc (suc i)) s s' d e h short stop =
    (d.0, d.1, d.2, IsDocument-set (t ∷ rest) (suc i) s s' d.3 e h short stop)

edited_inj : (a b : CString) → edited a ≡ edited b → a ≡ b
edited_inj a b h = cc

rebuild-edited :
    (sentences words : List CString) (i j : ℕ) (new result : CString)
    → rebuild sentences i words j new ≡ edited result
    → join (set sentences i (join (set words j new))) ≡ result
unfolding rebuild
rebuild-edited sentences words i j new result h = ground arith

index-pos :
    (parts : List CString) (i : ℕ) (s : CString)
    → get_elem? parts i ≡ some s
    → index (pos i) parts ≡ some (i, s)
unfolding index
index-pos parts i s e = rw (e, index) refl

edit_content-rebuild :
    (content new s w : CString) (i j : ℕ)
    → get_elem? (parse_sentences content max_sentences) i ≡ some s
    → get_elem? (parse_words s max_words_per_sentence) j ≡ some w
    → edit_content content (pos i) (pos j) new
      ≡ rebuild
          (parse_sentences content max_sentences)
          i
          (parse_words s max_words_per_sentence)
          j
          new
unfolding edit_content
edit_content-rebuild content new s w i j e e' =
    rw
      (
        index-pos (parse_sentences content max_sentences) i s e,
        edit_content,
        index-pos (parse_words s max_words_per_sentence) j w e',
      )
      refl

-- Of a content `parse_sentences` reads at most 1000 sentences, and of a sentence `parse_words` at most 100
-- words. Where the sentences so read form a document, an edit that puts a word in place of the word j of
-- the sentence i is read back as follows, if the new sentence is one with a byte to spare and keeps a
-- delimiter at its end: the sentences read are those read before, with one other in place of the sentence i,
-- and of this one the words read are those read of the old one, with the new word in place of the word j.
-- Nothing is said of what is beyond the 1000 sentences and the 100 words.
pub edit_content-reread :
    (content new s w result : CString) (i j : ℕ)
    → IsDocument (parse_sentences content max_sentences)
    → get_elem? (parse_sentences content max_sentences) i ≡ some s
    → get_elem? (parse_words s max_words_per_sentence) j ≡ some w
    → IsWord new
    → IsSentence (join (set (parse_words s max_words_per_sentence) j new))
    → length (join (set (parse_words s max_words_per_sentence) j new)) < max_sentence - 1
    → (Terminated s → Terminated (join (set (parse_words s max_words_per_sentence) j new)))
    → edit_content content (pos i) (pos j) new ≡ edited result
    → (s' : CString) × (parse_sentences result max_sentences
        ≡ set (parse_sentences content max_sentences) i s')
      × (parse_words s' max_words_per_sentence ≡ set (parse_words s max_words_per_sentence) j new)
edit_content-reread content new s w result i j d e e' word sentence short stop h =
    let ss = parse_sentences content max_sentences in
    let ws = parse_words s max_words_per_sentence in
    let s' = join (set ws j new) in
    let saved : join (set ss i s') ≡ result =
      rebuild-edited ss ws i j new result
        (sym (edit_content-rebuild content new s w i j e e') ∙ h) in
    let (are_words, few) = parse_words-IsWord s max_words_per_sentence in
    (
      s',
      subst (λ (r : CString). parse_sentences r max_sentences ≡ set ss i s') saved
          (parse_sentences-join (set ss i s') max_sentences
            (IsDocument-set ss i s s' d e sentence short stop)
            (omega
              (arith, length-set ss i s', (parse_sentences-IsSentence content max_sentences).1))),
      parse_words-join (set ws j new) max_words_per_sentence
          (All-set IsWord ws j new are_words word) (omega (arith, length-set ws j new, few)),
    )
