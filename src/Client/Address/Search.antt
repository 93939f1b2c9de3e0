-- ===== src/Client/Address/Search.antt =====
-- What strstr and the bounded scan of `parse_ss_info` find.
use network_doc.Base.{
  ℕ, zero, suc, ◌≤◌, ◌≡◌, refl, Bool, true, false, none, some, [], ◌∷◌, ◌++◌, arith, ◌==◌, ==_refl,
  length, All, CString,
}
use network_doc.Client.Address.{literal, behind, span_max}

literal-append : (part rest : CString) → literal part (part ++ rest) ≡ some rest
unfolding literal
literal-append [] rest = refl
literal-append (c ∷ part) rest = rw (==_refl c) (literal-append part rest)

-- The character c does not occur.
abbrev pub Without : ℕ → CString → Type 0
Without c = All (λ d. (c == d) ≡ false)

literal-miss : (c x : ℕ) (part xs : CString) → (c == x) ≡ false → literal (c ∷ part) (x ∷ xs) ≡ none
unfolding literal
literal-miss c x part xs h = rw h refl

pub behind-absent : (c : ℕ) (part xs : CString) → Without c xs → behind (c ∷ part) xs ≡ none
unfolding behind
behind-absent c part [] h = refl
behind-absent c part (x ∷ xs) h =
    rw (literal-miss c x part xs (h.0), behind) (behind-absent c part xs h.1)

pub behind-skip :
    (c : ℕ) (part xs rest : CString)
    → Without c xs
    → behind (c ∷ part) (xs ++ (c ∷ (part ++ rest))) ≡ some rest
unfolding behind
behind-skip c part [] rest h = rw (literal-append (c ∷ part) rest, behind) refl
behind-skip c part (x ∷ xs) rest h =
    rw (literal-miss c x part (xs ++ (c ∷ (part ++ rest))) (h.0), behind)
      (behind-skip c part xs rest h.1)

pub span_max-run :
    (p : ℕ → Bool) (n : ℕ) (run : CString) (d : ℕ) (rest : CString)
    → All (λ c. p c ≡ true) run
    → length run ≤ n
    → p d ≡ false
    → span_max p n (run ++ d ∷ rest) ≡ (run, d ∷ rest)
unfolding span_max
span_max-run p zero [] d rest h l e = refl
span_max-run p zero (c ∷ run) d rest h l e = absurd (omega arith)
span_max-run p (suc n) [] d rest h l e = rw e refl
span_max-run p (suc n) (c ∷ run) d rest h l e =
    rw (span_max-run p n run d rest h.1 (omega arith) e, h.0) refl
