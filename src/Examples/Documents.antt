-- ===== src/Examples/Documents.antt =====
-- Runs of the text functions and of the formatted numbers.
use network_doc.Base.{
  ◌≤◌, ◌≡◌, refl, true, [], ◌∷◌, ◌++◌, arith, length, All, CString, codes, some, negsuc,
}
use network_doc.Text.{trim, parse_sentences, parse_words, join, is_space}
use network_doc.Text.Trim.{starts_solid, ends_solid, solid, Blank, trim_lem}
use network_doc.Text.Sentences.{IsSentence, parse_sentences-IsSentence}
use network_doc.Text.Document.{IsDocument, parse_sentences-join}
use network_doc.Text.Normal.{parse_sentences-IsDocument}
use network_doc.Text.Content.{concat, solid-parse_sentences}
use network_doc.Text.Words.{IsWord, parse_words-IsWord, parse_words-join}
use network_doc.Format.{scan_int, show_int}
use network_doc.Format.RoundTrip.{NoDigit, scan_int-show_int}

abbrev first : CString
first = codes "Hi."

abbrev second : CString
second = codes "Ok"

abbrev content : CString
content = codes " Hi.  Ok"

first-IsSentence : IsSentence first
unfolding is_space network_doc.Text.is_delimiter
first-IsSentence = record {
  nonempty = omega arith;
  fits = omega arith;
  starts = refl;
  ends = refl;
  delimited = (refl, (refl, tt));
}

second-IsSentence : IsSentence second
unfolding is_space network_doc.Text.is_delimiter
second-IsSentence = record {
  nonempty = omega arith;
  fits = omega arith;
  starts = refl;
  ends = refl;
  delimited = (refl, tt);
}

greeting-IsDocument : IsDocument (first ∷ second ∷ [])
unfolding network_doc.Text.is_delimiter
greeting-IsDocument = (first-IsSentence, omega arith, refl, (second-IsSentence, omega arith))

parse_sentences-join_example : parse_sentences (join (first ∷ second ∷ [])) 10 ≡ first ∷ second ∷ []
parse_sentences-join_example =
    parse_sentences-join (first ∷ second ∷ []) 10 greeting-IsDocument (omega arith)

parse_sentences-IsDocument_example : IsDocument (parse_sentences content 10)
parse_sentences-IsDocument_example = parse_sentences-IsDocument content 10 (omega arith)

solid-parse_sentences_example : solid (concat (parse_sentences content 10)) ≡ solid content
solid-parse_sentences_example = solid-parse_sentences content 10 (omega arith) (omega arith)

parse_sentences-IsSentence_example :
    All IsSentence (parse_sentences content 1) × (length (parse_sentences content 1) ≤ 1)
parse_sentences-IsSentence_example = parse_sentences-IsSentence content 1

first-IsWord : IsWord first
unfolding is_space
first-IsWord = record {
  nonempty = omega arith;
  fits = omega arith;
  solid = (refl, (refl, (refl, tt)));
}

second-IsWord : IsWord second
unfolding is_space
second-IsWord = record { nonempty = omega arith; fits = omega arith; solid = (refl, (refl, tt)) }

parse_words-join_example : parse_words (join (first ∷ second ∷ [])) 2 ≡ first ∷ second ∷ []
parse_words-join_example =
    parse_words-join (first ∷ second ∷ []) 2 (first-IsWord, (second-IsWord, tt)) (omega arith)

parse_words-IsWord_example :
    All IsWord (parse_words content 5) × (length (parse_words content 5) ≤ 5)
parse_words-IsWord_example = parse_words-IsWord content 5

trim_lem_example :
    (starts_solid (trim content) ≡ true)
    × (ends_solid (trim content) ≡ true)
    × ((a : CString) × ((b : CString) × (Blank a × Blank b × (content ≡ a ++ (trim content ++ b)))))
trim_lem_example = trim_lem content

bar-NoDigit : NoDigit (codes "|")
unfolding network_doc.Format.is_digit
bar-NoDigit = refl

scan_int-show_int_example :
    scan_int (show_int (negsuc 41) ++ codes "|") ≡ some (negsuc 41, codes "|")
scan_int-show_int_example = scan_int-show_int (negsuc 41) (codes "|") bar-NoDigit
