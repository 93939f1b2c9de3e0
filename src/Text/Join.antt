-- ===== src/Text/Join.antt =====
-- What the joining loops write.
use network_doc.Base.{
  ℕ, ◌+◌, ◌≡◌, sym, List, [], ◌∷◌, ◌++◌, append-nil, append_assoc, arith, lt→ltb, CString,
}
use network_doc.Text.{join_loop, join}

-- Every part behind a blank.
abbrev pub spaced : List CString → CString
spaced [] = []
spaced (s ∷ rest) = 32 ∷ (s ++ spaced rest)

join_loop-spaced :
    (out : CString) (i : ℕ) (parts : List CString)
    → join_loop out (i + 1) parts ≡ out ++ spaced parts
unfolding join_loop
join_loop-spaced out i [] = sym (append-nil out)
join_loop-spaced out i (s ∷ rest) =
    rw (lt→ltb 0 (i + 1) (omega arith), join_loop-spaced ((out ++ 32 ∷ []) ++ s) (i + 1) rest)
      (simp append_assoc)

pub join-cons : (s : CString) (rest : List CString) → join (s ∷ rest) ≡ s ++ spaced rest
unfolding join join_loop
join-cons s rest = join_loop-spaced s 0 rest
