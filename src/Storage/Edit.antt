-- ===== src/Storage/Edit.antt =====
-- The word edit of `handle_write` in src/storageserver/ss_handlers.c: from the content of the file to
-- the content that is saved.
pub mod Reread
use network_doc.Base.{
  ℕ, ◌||◌, Option, none, some, List, leb, if◌then◌else◌, length, get_elem?, set, CString, ℤ, pos,
  negsuc,
}
use network_doc.Text.{
  max_sentence, max_word, max_words_per_sentence, max_sentences, parse_sentences, parse_words, join,
}
use network_doc.Message.{buffer_size}

-- What the edit ends in; `overflow` is a strcpy or strcat past the end of its array.
pub data Edited : Type 0 where
  no_sentence no_word overflow : Edited
  edited : CString → Edited

-- The element at an index, with the index, where 0 <= index < count.
unfoldable pub index : ℤ → List CString → Option (ℕ × CString)
index (pos i) parts = elim (get_elem? parts i) [ none ↦ none | some s ↦ some (i, s) ]
index (negsuc i) parts = none

-- The sentence with the word replaced: words[word_idx] is an array of MAX_WORD bytes, new_sentence one
-- of MAX_SENTENCE bytes and final_content one of BUFFER_SIZE bytes.
unfoldable pub rebuild : List CString → ℕ → List CString → ℕ → CString → Edited
rebuild sentences sentence_num words word_idx new_content =
    let new_sentence = join (set words word_idx new_content) in
    let final_content = join (set sentences sentence_num new_sentence) in
    if leb max_word (length new_content)
      || (leb max_sentence (length new_sentence) || leb buffer_size (length final_content))
    then overflow
    else edited final_content

unfoldable pub edit_content : CString → ℤ → ℤ → CString → Edited
edit_content current_content sentence_num word_idx new_content =
    let sentences = parse_sentences current_content max_sentences in
    elim (index sentence_num sentences) [
      | none ↦ no_sentence
      | some (i, sentence) ↦
          let words = parse_words sentence max_words_per_sentence in
          elim (index word_idx words) [
            | none ↦ no_word
            | some (j, old) ↦ rebuild sentences i words j new_content
          ]
    ]
