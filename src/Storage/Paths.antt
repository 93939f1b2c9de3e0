-- ===== src/Storage/Paths.antt =====
-- The paths of a file and of its undo state differ.
use network_doc.Base.{
  ◌+◌, ◌<◌, ◌≡◌, ap, inl, inr, false, ◌∷◌, ◌++◌, arith, Bool-cases, length, length-append, take_all,
  CString, codes, str_eq, str_eq_iff,
}
use network_doc.Storage.Content.{max_path, get_file_path, get_undo_path}

-- Both paths of a file fit their buffers.
abbrev pub PathsFit : CString → CString → Type 0
PathsFit dir filename = length dir + length filename + 6 < max_path

length-file_path :
    (dir filename : CString)
    → PathsFit dir filename
    → length (get_file_path dir filename) ≡ length dir + length filename + 1
unfolding get_file_path
length-file_path dir filename h =
    let n = length-append dir (b'/' ∷ filename) in
    rw (take_all 511 (dir ++ b'/' ∷ filename) (omega (arith, n))) (omega (arith, n))

length-undo_path :
    (dir filename : CString)
    → PathsFit dir filename
    → length (get_undo_path dir filename) ≡ length dir + length filename + 6
unfolding get_undo_path
length-undo_path dir filename h =
    let n = length-append dir (codes "/undo/" ++ filename) in
    rw (take_all 511 (dir ++ (codes "/undo/" ++ filename)) (omega (arith, n))) (omega (arith, n))

-- The undo state of a file is another file.
pub paths_ne :
    (dir filename : CString)
    → PathsFit dir filename
    → str_eq (get_undo_path dir filename) (get_file_path dir filename) ≡ false
paths_ne dir filename h =
    elim (Bool-cases (str_eq (get_undo_path dir filename) (get_file_path dir filename))) [
      | inl e ↦
          let p =
            ap length
              ((str_eq_iff (get_undo_path dir filename) (get_file_path dir filename)).0 e) in
          absurd
            (omega (arith, p, length-file_path dir filename h, length-undo_path dir filename h))
      | inr e ↦ e
    ]
