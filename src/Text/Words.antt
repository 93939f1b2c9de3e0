-- ===== src/Text/Words.antt =====
-- `parse_words` cuts at white space: what it returns are words, and words written back with blanks
-- between them are read again.
use network_doc.Base.{
  ℕ, ◌+◌, ◌≤◌, ◌<◌, ◌≡◌, ap, ◌∙◌, inl, inr, false, List, [], ◌∷◌, ◌++◌, append-nil, append_assoc,
  arith, ltb, ltb→lt, lt→ltb, Bool-cases, length, take, length-append, take_all, All, All-append,
  CString,
}
use network_doc.Text.{
  is_space, max_word, push, end_word, last_word, word_loop, parse_words, join_loop, join,
}
use network_doc.Text.Join.{spaced, join-cons}

-- A word fills at most its array and holds no white space.
pub record IsWord (w : CString) : Type 0 where
  pub nonempty : 0 < length w
  pub fits : length w < max_word
  pub solid : All (λ c. is_space c ≡ false) w

-- What `current` holds inside the loop: a word, or nothing.
record IsPartial (w : CString) : Type 0 where
  fits : length w < max_word
  solid : All (λ c. is_space c ≡ false) w

push-IsPartial :
    (c : ℕ) (w : CString) → is_space c ≡ false → IsPartial w → IsPartial (push max_word w c)
push-IsPartial c w h p = elim (Bool-cases (ltb (length w) 127)) [
  | inl room ↦ rw room (record {
    fits = omega (arith, length-append {0} w (c ∷ []), ltb→lt (length w) 127 room);
    solid = All-append _ w (c ∷ []) p.solid (h, tt);
  })
  | inr full ↦ rw full p
]

nil-IsPartial : IsPartial []
nil-IsPartial = record { fits = omega arith; solid = tt }

end_word-IsWord :
    (w : CString) (out : List CString) → IsPartial w → All IsWord out → All IsWord (end_word w out)
unfolding end_word
end_word-IsWord [] out p h = h
end_word-IsWord (c ∷ w) out p h =
    rw (lt→ltb 0 (length (c ∷ w)) (omega arith), take_all 127 (c ∷ w) (omega (arith, p.fits)))
      (All-append IsWord out ((c ∷ w) ∷ []) h
        (record { nonempty = omega arith; fits = p.fits; solid = p.solid }, tt))

last_word-IsWord :
    (max : ℕ) (w : CString) (out : List CString)
    → IsPartial w
    → All IsWord out
    → All IsWord (last_word max w out)
unfolding last_word
last_word-IsWord max w out p h = elim (Bool-cases (ltb (length out) max)) [
  | inl room ↦ rw room (end_word-IsWord w out p h)
  | inr full ↦ rw full h
]

word_loop-IsWord :
    (max : ℕ) (s w : CString) (out : List CString)
    → IsPartial w
    → All IsWord out
    → All IsWord (word_loop max s w out)
unfolding word_loop
word_loop-IsWord max [] w out p h = last_word-IsWord max w out p h
word_loop-IsWord max (c ∷ s) w out p h = elim (Bool-cases (ltb (length out) max)) [
  | inr full ↦ rw full (last_word-IsWord max w out p h)
  | inl room ↦ rw room (elim (Bool-cases (is_space c)) [
    | inl blank ↦
        rw blank
          (word_loop-IsWord max s [] (end_word w out) nil-IsPartial (end_word-IsWord w out p h))
    | inr letter ↦
        rw letter (word_loop-IsWord max s (push max_word w c) out (push-IsPartial c w letter p) h)
  ])
]

length-end_word : (w : CString) (out : List CString) → length (end_word w out) ≤ length out + 1
unfolding end_word
length-end_word w out = ground (arith, length-append out (take 127 w ∷ []))

length-last_word :
    (max : ℕ) (w : CString) (out : List CString)
    → length out ≤ max
    → length (last_word max w out) ≤ max
unfolding last_word
length-last_word max w out h = ground (arith, length-end_word w out)

length-word_loop :
    (max : ℕ) (s w : CString) (out : List CString)
    → length out ≤ max
    → length (word_loop max s w out) ≤ max
unfolding word_loop
length-word_loop max [] w out h = length-last_word max w out h
length-word_loop max (c ∷ s) w out h = elim (Bool-cases (ltb (length out) max)) [
  | inr full ↦ rw full (length-last_word max w out h)
  | inl room ↦ rw room (elim (Bool-cases (is_space c)) [
    | inl blank ↦ rw blank (
        length-word_loop max s [] (end_word w out)
          (omega (arith, length-end_word w out, ltb→lt _ _ room)))
    | inr letter ↦ rw letter (length-word_loop max s (push max_word w c) out h)
  ])
]

-- `parse_words` returns at most `max` strings, and each is nonempty, fits its array of MAX_WORD
-- bytes and holds no white space.
pub parse_words-IsWord :
    (s : CString) (max : ℕ) → All IsWord (parse_words s max) × (length (parse_words s max) ≤ max)
unfolding parse_words
parse_words-IsWord s max =
    (word_loop-IsWord max s [] [] nil-IsPartial tt, length-word_loop max s [] [] (omega arith))

-- The loop collects a run of characters that are no white space.
word_loop-run :
    (max : ℕ) (w rest cur : CString) (out : List CString)
    → All (λ c. is_space c ≡ false) w
    → length cur + length w < max_word
    → length out < max
    → word_loop max (w ++ rest) cur out ≡ word_loop max rest (cur ++ w) out
unfolding word_loop
word_loop-run max [] rest cur out solid fits room = rw append-nil
word_loop-run max (c ∷ w) rest cur out solid fits room =
    rw (lt→ltb (length out) max room, solid.0, lt→ltb (length cur) 127 (omega arith))
      (word_loop-run max w rest (cur ++ c ∷ []) out solid.1
          (omega (arith, length-append cur (c ∷ []))) room
        ∙ ap (λ t. word_loop max rest t out) (append_assoc cur (c ∷ []) w))

end_word-append : (w : CString) (out : List CString) → IsWord w → end_word w out ≡ out ++ w ∷ []
unfolding end_word
end_word-append w out h =
    rw (lt→ltb 0 (length w) h.nonempty, take_all 127 w (omega (arith, h.fits)))

word_loop-spaced :
    (max : ℕ) (w : CString) (ws out : List CString)
    → IsWord w
    → All IsWord ws
    → length out + 1 + length ws ≤ max
    → word_loop max (spaced ws) w out ≡ out ++ w ∷ ws
unfolding word_loop last_word is_space
word_loop-spaced max w [] out h hs room =
    rw (lt→ltb (length out) max (omega arith)) (end_word-append w out h)
word_loop-spaced max w (v ∷ ws) out h hs room =
    rw (lt→ltb (length out) max (omega arith), end_word-append w out h)
      (word_loop-run max v (spaced ws) [] (out ++ w ∷ []) hs.0.solid (omega (arith, hs.0.fits))
          (omega (arith, length-append out (w ∷ [])))
        ∙ word_loop-spaced max v ws (out ++ w ∷ []) hs.0 hs.1
            (omega (arith, length-append out (w ∷ [])))
        ∙ append_assoc out (w ∷ []) (v ∷ ws))

-- At most `max` words, joined with blanks, are read back by `parse_words` as they were.
pub parse_words-join :
    (ws : List CString) (max : ℕ) → All IsWord ws → length ws ≤ max → parse_words (join ws) max ≡ ws
unfolding parse_words join join_loop word_loop last_word end_word
parse_words-join [] max h room = ground arith
parse_words-join (w ∷ ws) max h room = rw join-cons (
    word_loop-run max w (spaced ws) [] [] h.0.solid (omega (arith, h.0.fits)) (omega arith)
    ∙ word_loop-spaced max w ws [] h.0 h.1 (omega arith))
