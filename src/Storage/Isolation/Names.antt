-- ===== src/Storage/Isolation/Names.antt =====
-- The paths of files, undo states and checkpoints differ where the file names do.
use network_doc.Base.{
  ℕ, ◌≤◌, ◌<◌, ◌≡◌, refl, sym, ap, ◌∙◌, ◌≢◌, inl, inr, true, false, [], ◌∷◌, ◌++◌, arith,
  Bool-cases, length, length-append, length-take-le, take_all, CString, codes, str_eq, str_eq_iff,
}
use network_doc.Message.{max_filename}
use network_doc.Format.{contains, starts_with, show_nat}
use network_doc.Storage.Content.{get_file_path, get_undo_path}
use network_doc.Storage.Checkpoints.{checkpoint_file, checkpoint_path}

-- A file name that names no directory and fits its array.
pub record IsName (filename : CString) : Type 0 where
  pub fits : length filename < max_filename
  pub no_slash : contains (codes "/") filename ≡ false

-- With a data directory of at most this length no path is cut.
abbrev pub Fits : CString → Type 0
Fits dir = length dir ≤ 240

append_cancel : (xs a b : CString) → xs ++ a ≡ xs ++ b → a ≡ b
append_cancel [] a b h = h
append_cancel (x ∷ xs) a b h = append_cancel xs a b (cc h)

file_path-whole : (dir f : CString) → Fits dir → IsName f → get_file_path dir f ≡ dir ++ b'/' ∷ f
unfolding get_file_path
file_path-whole dir f d n =
    take_all 511 (dir ++ b'/' ∷ f) (omega (arith, length-append dir (b'/' ∷ f), n.fits))

undo_path-whole :
    (dir f : CString) → Fits dir → IsName f → get_undo_path dir f ≡ dir ++ (codes "/undo/" ++ f)
unfolding get_undo_path
undo_path-whole dir f d n =
    take_all 511 (dir ++ (codes "/undo/" ++ f))
      (omega (arith, length-append dir (codes "/undo/" ++ f), n.fits))

checkpoint_path-whole :
    (dir f : CString)
    → Fits dir
    → length f < max_filename
    → checkpoint_path dir f ≡ dir ++ (codes "/checkpoints/" ++ f)
unfolding checkpoint_path
checkpoint_path-whole dir f d n =
    take_all 511 (dir ++ (codes "/checkpoints/" ++ f))
      (omega (arith, length-append dir (codes "/checkpoints/" ++ f)))

pub checkpoint_file-fits :
    (f tag : CString) (now : ℕ) → length (checkpoint_file f tag now) < max_filename
unfolding checkpoint_file
checkpoint_file-fits f tag now =
    omega (arith, length-take-le 255 (f ++ (b'_' ∷ (tag ++ (b'_' ∷ show_nat now)))))

-- From equal paths, a contradiction.
pub differ : (a b : CString) → (a ≡ b → ⊥) → str_eq a b ≡ false
differ a b h = elim (Bool-cases (str_eq a b)) [
  | inl e ↦ absurd (h ((str_eq_iff a b).0 e))
  | inr e ↦ e
]

pub file_paths_ne :
    (dir f g : CString)
    → Fits dir
    → IsName f
    → IsName g
    → f ≢ g
    → str_eq (get_file_path dir f) (get_file_path dir g) ≡ false
file_paths_ne dir f g d nf ng ne = differ (get_file_path dir f) (get_file_path dir g) (λ e.
    let h =
      append_cancel dir (b'/' ∷ f) (b'/' ∷ g)
        (sym (file_path-whole dir f d nf) ∙ e ∙ file_path-whole dir g d ng) in
    ne (cc h))

slash_undo : (f : CString) → contains (codes "/") (codes "undo/" ++ f) ≡ true
unfolding contains starts_with
slash_undo f = refl

slash_checkpoints : (f : CString) → contains (codes "/") (codes "checkpoints/" ++ f) ≡ true
unfolding contains starts_with
slash_checkpoints f = refl

pub undo_file_ne :
    (dir f g : CString)
    → Fits dir
    → IsName f
    → IsName g
    → str_eq (get_undo_path dir f) (get_file_path dir g) ≡ false
undo_file_ne dir f g d nf ng = differ (get_undo_path dir f) (get_file_path dir g) (λ e.
    let h =
      append_cancel dir (codes "/undo/" ++ f) (b'/' ∷ g)
        (sym (undo_path-whole dir f d nf) ∙ e ∙ file_path-whole dir g d ng) in
    let same : codes "undo/" ++ f ≡ g = cc h in
    cc (sym (slash_undo f) ∙ ap (contains (codes "/")) same ∙ ng.no_slash))

pub checkpoint_file_ne :
    (dir f g : CString)
    → Fits dir
    → length f < max_filename
    → IsName g
    → str_eq (checkpoint_path dir f) (get_file_path dir g) ≡ false
checkpoint_file_ne dir f g d nf ng = differ (checkpoint_path dir f) (get_file_path dir g) (λ e.
    let h =
      append_cancel dir (codes "/checkpoints/" ++ f) (b'/' ∷ g)
        (sym (checkpoint_path-whole dir f d nf) ∙ e ∙ file_path-whole dir g d ng) in
    let same : codes "checkpoints/" ++ f ≡ g = cc h in
    cc (sym (slash_checkpoints f) ∙ ap (contains (codes "/")) same ∙ ng.no_slash))

pub file_checkpoint_ne :
    (dir f g : CString)
    → Fits dir
    → IsName f
    → length g < max_filename
    → str_eq (get_file_path dir f) (checkpoint_path dir g) ≡ false
file_checkpoint_ne dir f g d nf ng = differ (get_file_path dir f) (checkpoint_path dir g) (λ e.
    let h =
      append_cancel dir (b'/' ∷ f) (codes "/checkpoints/" ++ g)
        (sym (file_path-whole dir f d nf) ∙ e ∙ checkpoint_path-whole dir g d ng) in
    let same : f ≡ codes "checkpoints/" ++ g = cc h in
    cc (sym (slash_checkpoints g) ∙ ap (contains (codes "/")) (sym same) ∙ nf.no_slash))

head_ne : (f g : CString) → codes "undo/" ++ f ≡ codes "checkpoints/" ++ g → ⊥
head_ne f g h = omega (arith, ap first h)
  where
    first : CString → ℕ
    first [] = 0
    first (c ∷ s) = c

pub undo_checkpoint_ne :
    (dir f g : CString)
    → Fits dir
    → IsName f
    → length g < max_filename
    → str_eq (get_undo_path dir f) (checkpoint_path dir g) ≡ false
undo_checkpoint_ne dir f g d nf ng = differ (get_undo_path dir f) (checkpoint_path dir g) (λ e.
    let h =
      append_cancel dir (codes "/undo/" ++ f) (codes "/checkpoints/" ++ g)
        (sym (undo_path-whole dir f d nf) ∙ e ∙ checkpoint_path-whole dir g d ng) in
    head_ne f g (cc h))
