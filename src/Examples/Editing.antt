-- ===== src/Examples/Editing.antt =====
-- A run of the word edit.
use network_doc.Base.{◌<◌, ◌-◌, ◌≡◌, refl, some, arith, length, get_elem?, set, CString, codes, pos}
use network_doc.Text.{
  max_sentence, max_words_per_sentence, max_sentences, parse_sentences, parse_words, join,
}
use network_doc.Text.Sentences.{IsSentence}
use network_doc.Text.Document.{Terminated}
use network_doc.Text.Normal.{parse_sentences-IsDocument}
use network_doc.Text.Words.{IsWord}
use network_doc.Storage.Edit.{edited, edit_content}
use network_doc.Storage.Edit.Reread.{edit_content-reread}

abbrev letter : CString
letter = codes "Hi you. Ok"

abbrev old_sentence : CString
old_sentence = codes "Hi you."

abbrev new_word : CString
new_word = codes "all."

abbrev new_sentence : CString
new_sentence = join (set (parse_words old_sentence max_words_per_sentence) 1 new_word)

old_sentence_there : get_elem? (parse_sentences letter max_sentences) 0 ≡ some old_sentence
unfolding parse_sentences network_doc.Text.sentence_loop network_doc.Text.is_delimiter
    network_doc.Text.end_sentence network_doc.Text.trim network_doc.Text.trim_start
    network_doc.Text.is_space network_doc.Text.trim_end network_doc.Text.last_sentence
old_sentence_there = refl

old_word_there : get_elem? (parse_words old_sentence max_words_per_sentence) 1 ≡ some (codes "you.")
unfolding parse_words network_doc.Text.word_loop network_doc.Text.is_space network_doc.Text.end_word
    network_doc.Text.last_word
old_word_there = refl

new_word-IsWord : IsWord new_word
unfolding network_doc.Text.is_space
new_word-IsWord = record {
  nonempty = omega arith;
  fits = omega arith;
  solid = (refl, (refl, (refl, (refl, tt))));
}

new_sentence-eq : new_sentence ≡ codes "Hi all."
unfolding join network_doc.Text.join_loop parse_words network_doc.Text.word_loop
    network_doc.Text.is_space network_doc.Text.end_word network_doc.Text.last_word
new_sentence-eq = refl

new_sentence-IsSentence : IsSentence new_sentence
unfolding network_doc.Text.is_space network_doc.Text.is_delimiter
new_sentence-IsSentence = rw new_sentence-eq (record {
  nonempty = omega arith;
  fits = omega arith;
  starts = refl;
  ends = refl;
  delimited = (refl, (refl, (refl, (refl, (refl, (refl, tt))))));
})

new_sentence_short : length new_sentence < max_sentence - 1
new_sentence_short = rw new_sentence-eq (omega arith)

new_sentence-Terminated : Terminated new_sentence
unfolding network_doc.Text.is_delimiter
new_sentence-Terminated = rw new_sentence-eq refl

edit_made : edit_content letter (pos 0) (pos 1) new_word ≡ edited (codes "Hi all. Ok")
unfolding edit_content network_doc.Storage.Edit.index parse_sentences network_doc.Text.sentence_loop
    network_doc.Text.is_delimiter network_doc.Text.end_sentence network_doc.Text.trim
    network_doc.Text.trim_start network_doc.Text.is_space network_doc.Text.trim_end
    network_doc.Text.last_sentence parse_words network_doc.Text.word_loop network_doc.Text.end_word
    network_doc.Text.last_word network_doc.Storage.Edit.rebuild join network_doc.Text.join_loop
edit_made = refl

edit_content-reread_example :
    (s' : CString) × (parse_sentences (codes "Hi all. Ok") max_sentences
      ≡ set (parse_sentences letter max_sentences) 0 s')
    × (parse_words s' max_words_per_sentence
        ≡ set (parse_words old_sentence max_words_per_sentence) 1 new_word)
edit_content-reread_example =
    edit_content-reread letter new_word old_sentence (codes "you.") (codes "Hi all. Ok") 0 1
      (parse_sentences-IsDocument letter max_sentences (omega arith)) old_sentence_there
      old_word_there new_word-IsWord new_sentence-IsSentence new_sentence_short
      (λ t. new_sentence-Terminated) edit_made
