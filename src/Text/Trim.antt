-- ===== src/Text/Trim.antt =====
-- `trim` removes white space at both ends and nothing else.
use network_doc.Base.{
  ℕ, suc, ◌≤◌, ◌≡◌, refl, sym, ap, ◌∙◌, inl, inr, Bool, true, false, not, [], ◌∷◌, ◌++◌, arith,
  length, keep, CString, Bool-cases, All, append_assoc, append-nil,
}
use network_doc.Text.{is_space, trim_start, cons_trimmed, trim_end, keep_first, trim}

-- The first character is no white space.
abbrev pub starts_solid : CString → Bool
starts_solid [] = true
starts_solid (c ∷ s) = not (is_space c)

-- The last character is no white space.
abbrev pub ends_solid : CString → Bool
ends_solid [] = true
ends_solid (c ∷ []) = not (is_space c)
ends_solid (c ∷ d ∷ s) = ends_solid (d ∷ s)

-- The characters that are no white space.
abbrev pub solid : CString → CString
solid = keep (λ c. not (is_space c))

pub starts-trim_start : (s : CString) → starts_solid (trim_start s) ≡ true
unfolding trim_start
starts-trim_start [] = refl
starts-trim_start (c ∷ s) = ground (arith, starts-trim_start s)

ends-cons_trimmed :
    (c : ℕ) (s : CString) → ends_solid s ≡ true → ends_solid (cons_trimmed c s) ≡ true
ends-cons_trimmed c [] h = ground arith
ends-cons_trimmed c (d ∷ s) h = h

ends-trim_end : (s : CString) → ends_solid (trim_end s) ≡ true
unfolding trim_end
ends-trim_end [] = refl
ends-trim_end (c ∷ s) = ends-cons_trimmed c (trim_end s) (ends-trim_end s)

ends-cons :
    (c : ℕ) (s : CString) → is_space c ≡ false → ends_solid s ≡ true → ends_solid (c ∷ s) ≡ true
ends-cons c [] h e = rw h
ends-cons c (d ∷ s) h e = e

pub trim-solid_ends : (s : CString) → (starts_solid (trim s) ≡ true) × (ends_solid (trim s) ≡ true)
unfolding trim
trim-solid_ends s = go (trim_start s) (starts-trim_start s)
  where
    go :
        (r : CString)
        → starts_solid r ≡ true
        → (starts_solid (keep_first r) ≡ true) × (ends_solid (keep_first r) ≡ true)
    go [] h = (refl, refl)
    go (c ∷ r) h = (h, ends-cons c (trim_end r) (ground arith) (ends-trim_end r))

solid-cons_trimmed : (c : ℕ) (s : CString) → solid (cons_trimmed c s) ≡ solid (c ∷ s)
solid-cons_trimmed c [] = ground arith
solid-cons_trimmed c (d ∷ s) = refl

solid-trim_end : (s : CString) → solid (trim_end s) ≡ solid s
unfolding trim_end
solid-trim_end [] = refl
solid-trim_end (c ∷ s) = solid-cons_trimmed c (trim_end s) ∙ ground (arith, solid-trim_end s)

solid-trim_start : (s : CString) → solid (trim_start s) ≡ solid s
unfolding trim_start
solid-trim_start [] = refl
solid-trim_start (c ∷ s) = ground (arith, solid-trim_start s)

solid-keep_first : (s : CString) → solid (keep_first s) ≡ solid s
solid-keep_first [] = refl
solid-keep_first (c ∷ s) = ground (arith, solid-trim_end s)

pub solid-trim : (s : CString) → solid (trim s) ≡ solid s
unfolding trim
solid-trim s = solid-keep_first (trim_start s) ∙ solid-trim_start s

-- White space and nothing else.
abbrev pub Blank : CString → Type 0
Blank = All (λ c. is_space c ≡ true)

Blank-trim_start : (s : CString) → (a : CString) × (Blank a × (s ≡ a ++ trim_start s))
unfolding trim_start
Blank-trim_start [] = ([], (tt, refl))
Blank-trim_start (c ∷ s) = elim (Bool-cases (is_space c)) [
  | inl e ↦
      let (a, (blank, h)) = Blank-trim_start s in
      (c ∷ a, ((e, blank), rw (e, trim_start) (ap (λ (r : CString). c ∷ r) h)))
  | inr e ↦ ([], (tt, rw (e, trim_start) refl))
]

Blank-cons_trimmed :
    (c : ℕ) (s : CString) → (b : CString) × (Blank b × (c ∷ s ≡ cons_trimmed c s ++ b))
Blank-cons_trimmed c [] = elim (Bool-cases (is_space c)) [
  | inl e ↦ (c ∷ [], ((e, tt), rw e refl))
  | inr e ↦ ([], (tt, rw e refl))
]
Blank-cons_trimmed c (d ∷ s) = ([], (tt, sym (append-nil (c ∷ d ∷ s))))

Blank-append : (a b : CString) → Blank a → Blank b → Blank (a ++ b)
Blank-append [] b h k = k
Blank-append (c ∷ a) b h k = (h.0, Blank-append a b h.1 k)

Blank-trim_end : (s : CString) → (b : CString) × (Blank b × (s ≡ trim_end s ++ b))
unfolding trim_end
Blank-trim_end [] = ([], (tt, refl))
Blank-trim_end (c ∷ s) =
    let (b, (blank, h)) = Blank-trim_end s in
    let (a, (first, k)) = Blank-cons_trimmed c (trim_end s) in
    (
      a ++ b,
      (
        Blank-append a b first blank,
        ap (λ (r : CString). c ∷ r) h
            ∙ ap (λ (r : CString). r ++ b) k
            ∙ append_assoc (cons_trimmed c (trim_end s)) a b,
      ),
    )

Blank-keep_first : (s : CString) → (b : CString) × (Blank b × (s ≡ keep_first s ++ b))
Blank-keep_first [] = ([], (tt, refl))
Blank-keep_first (c ∷ s) =
    let (b, (blank, h)) = Blank-trim_end s in (b, (blank, ap (λ (r : CString). c ∷ r) h))

-- `trim` removes white space at both ends and nothing else: the string is some white space, then the
-- result, then some white space, and the result neither starts nor ends with white space.
pub trim_lem :
    (s : CString)
    → (starts_solid (trim s) ≡ true)
      × (ends_solid (trim s) ≡ true)
      × ((a : CString) × ((b : CString) × (Blank a × Blank b × (s ≡ a ++ (trim s ++ b)))))
unfolding trim
trim_lem s =
    let (a, (before, h)) = Blank-trim_start s in
    let (b, (behind, k)) = Blank-keep_first (trim_start s) in
    let (x, y) = trim-solid_ends s in
    (x, y, (a, (b, (before, behind, h ∙ ap (λ (r : CString). a ++ r) k))))

length-cons_trimmed : (c : ℕ) (s : CString) → length (cons_trimmed c s) ≤ suc (length s)
length-cons_trimmed c [] = ground arith
length-cons_trimmed c (d ∷ s) = omega arith

length-trim_end : (s : CString) → length (trim_end s) ≤ length s
unfolding trim_end
length-trim_end [] = omega arith
length-trim_end (c ∷ s) = omega (arith, length-cons_trimmed c (trim_end s), length-trim_end s)

length-trim_start : (s : CString) → length (trim_start s) ≤ length s
unfolding trim_start
length-trim_start [] = omega arith
length-trim_start (c ∷ s) = ground (arith, length-trim_start s)

length-keep_first : (s : CString) → length (keep_first s) ≤ length s
length-keep_first [] = omega arith
length-keep_first (c ∷ s) = omega (arith, length-trim_end s)

pub length-trim-le : (s : CString) → length (trim s) ≤ length s
unfolding trim
length-trim-le s = omega (arith, length-trim_start s, length-keep_first (trim_start s))

pub trim_end_id : (s : CString) → ends_solid s ≡ true → trim_end s ≡ s
unfolding trim_end
trim_end_id [] h = refl
trim_end_id (c ∷ []) h = ground arith
trim_end_id (c ∷ d ∷ s) h = rw (trim_end_id (d ∷ s) h)

pub ends-tail : (c : ℕ) (s : CString) → ends_solid (c ∷ s) ≡ true → ends_solid s ≡ true
ends-tail c [] h = refl
ends-tail c (d ∷ s) h = h

-- A string with no white space at its ends is left as it is, and a blank before it goes.
pub trim_id : (s : CString) → starts_solid s ≡ true → ends_solid s ≡ true → trim s ≡ s
unfolding trim trim_start
trim_id [] h k = refl
trim_id (c ∷ s) h k = ground (arith, trim_end_id s (ends-tail c s k))

pub trim-blank : (s : CString) → trim (32 ∷ s) ≡ trim s
unfolding trim trim_start is_space
trim-blank s = refl
