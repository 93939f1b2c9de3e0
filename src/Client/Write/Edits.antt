-- ===== src/Client/Write/Edits.antt =====
-- The edits of words stay inside the client's array.
use network_doc.Base.{
  ℕ, suc, ◌≤◌, ◌<◌, ◌≡◌, refl, sym, ap, ◌⊎◌, inl, inr, Option, none, some, List, [], ◌∷◌, arith,
  ltb, leb, ◌==◌, Bool-cases, Option-cases, some_inj, length, length-append, length-set, All,
  All-append, All-set, CString, codes, str_eq, ℤ, pos, negsuc, ◌&&◌,
}
use mathlib.Core.Path.{subst}
use network_doc.Format.{scan_int}
use network_doc.Text.{max_word, max_words_per_sentence, trim}
use network_doc.Client.Args.{Conversion, unmatched, overrun, word, scan_into}
use network_doc.Client.Write.{put_word, bad_format, edit_line, Draft, prompted, edit_loop}

-- At most MAX_WORDS_PER_SENTENCE words, each shorter than its array of MAX_WORD bytes.
pub record FitsWords (words : List CString) : Type 0 where
  pub few : length words ≤ max_words_per_sentence
  pub short : All (λ w. length w < max_word) words

pub Conversion-cases :
    (r : Conversion)
    → (r ≡ unmatched) ⊎ ((r ≡ overrun) ⊎ ((w : CString) × ((rest : CString) × (r ≡ word w rest))))
Conversion-cases unmatched = inl refl
Conversion-cases overrun = inr (inl refl)
Conversion-cases (word w rest) = inr (inr (w, (rest, refl)))

scan_into-fits : (n : ℕ) (text w rest : CString) → scan_into n text ≡ word w rest → length w < n
unfolding scan_into
scan_into-fits n text w rest h = ground arith

put_word-FitsWords :
    (words : List CString) (i : ℤ) (new_word : CString)
    → FitsWords words
    → length new_word < max_word
    → FitsWords (put_word words i new_word).0
unfolding put_word
put_word-FitsWords words (negsuc i) new_word f l = f
put_word-FitsWords words (pos i) new_word f l =
    elim (Bool-cases (leb i (length words) && ltb i max_words_per_sentence)) [
      | inr e ↦ rw (e, put_word) f
      | inl e ↦ elim (Bool-cases (i == length words)) [
        | inl x ↦
            rw (e, put_word, x, put_word)
              (record {
                few = ground (arith, length-append words (new_word ∷ []));
                short = All-append _ words (new_word ∷ []) f.short (l, tt);
              })
        | inr x ↦
            rw (e, put_word, x, put_word)
              (record {
                few = omega (arith, f.few, length-set words i new_word);
                short = All-set _ words i new_word f.short l;
              })
      ]
    ]

-- No word is lost.
put_word-grows :
    (words : List CString) (i : ℤ) (new_word : CString)
    → length words ≤ length (put_word words i new_word).0
unfolding put_word
put_word-grows words (negsuc i) new_word = omega arith
put_word-grows words (pos i) new_word =
    ground (arith, length-append words (new_word ∷ []), length-set words i new_word)

-- What an edit keeps.
abbrev Kept : List CString → List CString → Type 0
Kept words words' = FitsWords words' × (length words ≤ length words')

edit_line-Kept :
    (words words' : List CString) (text printed : CString)
    → FitsWords words
    → edit_line words text ≡ some (words', printed)
    → Kept words words'
unfolding edit_line
edit_line-Kept words words' text printed f h = elim (Option-cases (scan_int text)) [
  | inl e ↦ same (rw (e, edit_line) at h)
  | inr ((i, rest), e) ↦ elim (Conversion-cases (scan_into max_word rest)) [
    | inl x ↦ same (rw (e, edit_line, x, edit_line) at h)
    | inr (inl x) ↦ cc (rw (e, edit_line, x, edit_line) at h)
    | inr (inr (w, (more, x))) ↦
        subst (λ (q : List CString × CString). Kept words q.0)
          (some_inj (rw (e, edit_line, x, edit_line) at h))
          (
            put_word-FitsWords words i w f (scan_into-fits max_word rest w more x),
            put_word-grows words i w,
          )
  ]
]
  where
    same :
        ◌≡◌ {A = Option (List CString × CString)}
          (some (words, bad_format))
          (some (words', printed))
        → Kept words words'
    same h = subst (λ (q : List CString × CString). Kept words q.0) (some_inj h) (f, omega arith)

prompted-inv :
    (text : CString) (o : Option Draft) (d : Draft)
    → prompted text o ≡ some d
    → (d' : Draft) × ((o ≡ some d') × ((d.words ≡ d'.words) × (d.input ≡ d'.input)))
prompted-inv text none d h = cc h
prompted-inv text (some d') d h = (
  d',
  (
    refl,
    (
      ap (λ (q : Draft). q.words) (sym (some_inj h)),
      ap (λ (q : Draft). q.input) (sym (some_inj h)),
    ),
  ),
)

-- What every line keeps, the loop keeps, and it takes lines off the terminal only.
pub edit_loop-keeps {ℓ} :
    {P : List CString → Type ℓ}
    → ((words words' : List CString) (text printed : CString)
        → P words
        → edit_line words text ≡ some (words', printed)
        → P words')
    → (words input : List CString) (d : Draft) → P words
    → edit_loop words input ≡ some d
    → P d.words × (length d.input ≤ length input)
unfolding edit_loop
edit_loop-keeps {P} step words [] d p h =
    subst (λ (q : Draft). P q.words × (length q.input ≤ 0)) (some_inj h) (p, omega arith)
edit_loop-keeps {P} step words (text ∷ input) d p h =
    elim (Bool-cases (str_eq (trim text) (codes "ETIRW"))) [
      | inl e ↦
          subst (λ (q : Draft). P q.words × (length q.input ≤ suc (length input)))
            (some_inj (rw (e, edit_loop) at h)) (p, omega arith)
      | inr e ↦ elim (Option-cases (edit_line words (trim text))) [
        | inl x ↦ cc (rw (e, edit_loop, x, edit_loop) at h)
        | inr ((words', message), x) ↦
            let (d', (y, (same, same'))) =
              prompted-inv message (edit_loop words' input) d
                (rw (e, edit_loop, x, edit_loop) at h) in
            let (a, b) =
              edit_loop-keeps step words' input d' (step words words' (trim text) message p x) y in
            (subst P (sym same) a, rw same' (omega arith))
      ]
    ]

-- The edits of words that fit the client's arrays leave words that fit them, and at least as many; what
-- they leave on the terminal has no more lines than there were.
pub edit_loop-FitsWords :
    (words input : List CString) (d : Draft)
    → FitsWords words
    → edit_loop words input ≡ some d
    → FitsWords d.words × (length words ≤ length d.words) × (length d.input ≤ length input)
edit_loop-FitsWords words input d f h =
    let ((a, b), c) =
      edit_loop-keeps {P = Kept words}
        (λ xs ys text printed k e.
          let (f', l) = edit_line-Kept xs ys text printed k.0 e in (f', omega (arith, l, k.1)))
        words input d (f, omega arith) h in
    (a, b, c)
