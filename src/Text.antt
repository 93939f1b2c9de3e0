-- ===== src/Text.antt =====
-- The text routines of src/common/utils.c: trimming, and cutting a document into sentences and a
-- sentence into words. An output array is the list of the strings written so far; the loops recur on
-- the unread input, with `current` and the output as accumulators.
pub mod Trim
pub mod Join
pub mod Words
pub mod Sentences
pub mod Document
pub mod Content
pub mod Normal
use network_doc.Base.{
  ℕ, ◌+◌, ◌-◌, Bool, ◌&&◌, ◌||◌, List, [], ◌∷◌, ◌++◌, ltb, ◌==◌, if◌then◌else◌, length, take,
  CString,
}

abbrev pub max_sentence : ℕ
max_sentence = 1024

abbrev pub max_word : ℕ
max_word = 128

abbrev pub max_words_per_sentence : ℕ
max_words_per_sentence = 100

abbrev pub max_sentences : ℕ
max_sentences = 1000

-- ' ', '\t', '\n' and '\r'
unfoldable pub is_space : ℕ → Bool
is_space c = c == 32 || c == 9 || c == 10 || c == 13

-- '.', '!' and '?'
unfoldable pub is_delimiter : ℕ → Bool
is_delimiter c = c == b'.' || c == b'!' || c == b'?'

-- The first loop of `trim`.
unfoldable pub trim_start : CString → CString
trim_start [] = []
trim_start (c ∷ s) = let rest = trim_start s in if is_space c then rest else c ∷ s

abbrev pub cons_trimmed : ℕ → CString → CString
cons_trimmed c [] = if is_space c then [] else c ∷ []
cons_trimmed c (d ∷ s) = c ∷ d ∷ s

-- The second loop of `trim`, behind the first character, which it never removes.
unfoldable pub trim_end : CString → CString
trim_end [] = []
trim_end (c ∷ s) = cons_trimmed c (trim_end s)

abbrev pub keep_first : CString → CString
keep_first [] = []
keep_first (c ∷ s) = c ∷ trim_end s

unfoldable pub trim : CString → CString
trim s = keep_first (trim_start s)

-- current[curr_pos++] = c, unless the buffer of n bytes is full
abbrev pub push : ℕ → CString → ℕ → CString
push n current c = if ltb (length current) (n - 1) then current ++ c ∷ [] else current

-- What both ends of a sentence do with the characters collected.
unfoldable pub end_sentence : CString → List CString → List CString
end_sentence current sentences =
    let trimmed = trim current in
    if ltb 0 (length trimmed) then sentences ++ take (max_sentence - 1) trimmed ∷ [] else sentences

-- What stands behind the loop of `parse_sentences`.
unfoldable pub last_sentence : ℕ → CString → List CString → List CString
last_sentence max current sentences =
    if ltb 0 (length current) && ltb (length sentences) max
    then end_sentence current sentences
    else sentences

unfoldable pub sentence_loop : ℕ → CString → CString → List CString → List CString
sentence_loop max [] current sentences = last_sentence max current sentences
sentence_loop max (c ∷ content) current sentences =
    let pushed = push max_sentence current c in
    let rest =
      sentence_loop max content (if is_delimiter c then [] else pushed)
        (if is_delimiter c then end_sentence pushed sentences else sentences) in
    if ltb (length sentences) max then rest else last_sentence max current sentences

unfoldable pub parse_sentences : CString → ℕ → List CString
parse_sentences content max = sentence_loop max content [] []

unfoldable pub end_word : CString → List CString → List CString
end_word current words =
    if ltb 0 (length current) then words ++ take (max_word - 1) current ∷ [] else words

-- What stands behind the loop of `parse_words`.
unfoldable pub last_word : ℕ → CString → List CString → List CString
last_word max current words = if ltb (length words) max then end_word current words else words

unfoldable pub word_loop : ℕ → CString → CString → List CString → List CString
word_loop max [] current words = last_word max current words
word_loop max (c ∷ sentence) current words =
    let rest =
      word_loop max sentence (if is_space c then [] else push max_word current c)
        (if is_space c then end_word current words else words) in
    if ltb (length words) max then rest else last_word max current words

unfoldable pub parse_words : CString → ℕ → List CString
parse_words sentence max = word_loop max sentence [] []

-- The loops that write strings back with one blank between them: `i` counts the rounds.
unfoldable pub join_loop : CString → ℕ → List CString → CString
join_loop out i [] = out
join_loop out i (s ∷ rest) = join_loop ((if ltb 0 i then out ++ 32 ∷ [] else out) ++ s) (i + 1) rest

unfoldable pub join : List CString → CString
join parts = join_loop [] 0 parts
