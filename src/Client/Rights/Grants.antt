-- ===== src/Client/Rights/Grants.antt =====
-- A right that the client's ADDACCESS gives, at the name server.
use network_doc.Base.{
  ℕ, ◌<◌, ◌≡◌, refl, sym, ap, ◌∙◌, inl, inr, true, false, not, some, [], ◌∷◌, append-nil, arith,
  ◌==◌, Bool-cases, Option-cases, length, take_all, All, CString, codes, str_eq, str_eq_refl,
  str_eq_iff, some_inj, ℤ, pos,
}
use mathlib.Core.Path.{subst}
use network_doc.Message.{Message, success}
use network_doc.Format.{scan_until, scan_int, scan_char_int, show_nat, show_int}
use network_doc.Format.RoundTrip.{scan_int-show_int}
use network_doc.Format.Fields.{scan_until-field}
use network_doc.NameServer.State.{NameServerState}
use network_doc.NameServer.Database.{Database, DatabaseLaws, select_owner, select_permissions}
use network_doc.NameServer.Permission.{
  access_read, access_write, grants, owned_by, check_permission,
}
use network_doc.NameServer.Access.{grant_access, add_access, handle_addaccess}
use network_doc.NameServer.Access.Grants.{addaccess-permissions}
use network_doc.Client.Rights.{flag_permissions, grant_message}

-- A name that "%[^|]" reads whole.
pub record IsUser (user : CString) : Type 0 where
  pub some_character : 0 < length user
  pub no_bar : All (λ c. not (c == b'|') ≡ true) user

scan_number : (n : ℕ) → scan_char_int b'|' (b'|' ∷ show_nat n) ≡ some (pos n, [])
unfolding scan_char_int show_int
scan_number n = ap scan_int (sym (append-nil (show_nat n))) ∙ scan_int-show_int (pos n) [] tt

-- What the flag says is granted, and nothing else.
abbrev Grants : CString → ℕ → Type 0
Grants flag perms =
    (grants (pos perms) access_read ≡ str_eq flag (codes "-R"))
    × (grants (pos perms) access_write ≡ str_eq flag (codes "-W"))

flag-Grants : (flag : CString) (perms : ℕ) → flag_permissions flag ≡ some perms → Grants flag perms
unfolding flag_permissions grants str_eq
flag-Grants flag perms h = elim (Bool-cases (str_eq flag (codes "-R"))) [
  | inl e ↦
      subst (Grants flag) (some_inj (rw (e, flag_permissions) at h))
        (sym e, ap (λ f. str_eq f (codes "-W")) (sym ((str_eq_iff flag (codes "-R")).0 e)))
  | inr e ↦ elim (Bool-cases (str_eq flag (codes "-W"))) [
    | inl x ↦
        subst (Grants flag) (some_inj (rw (e, flag_permissions, x, flag_permissions) at h))
          (sym e, sym x)
    | inr x ↦ cc (rw (e, flag_permissions, x, flag_permissions) at h)
  ]
]

module _ (D : Database) (laws : DatabaseLaws D) where
  open D use {Db, prepare, file, permissions, grant}

  grant_access-file :
      (s : NameServerState Db) (m : Message) (target k : CString) (perms : ℤ)
      → file (grant_access D s m target perms).0.db k ≡ file s.db k
  unfolding grant_access
  grant_access-file s m target k perms = elim (Option-cases (grant s.db m.filename target perms)) [
    | inl e ↦ ground arith
    | inr (db', e) ↦ ground (arith, laws.file-grant s.db db' m.filename target k perms e)
  ]

  addaccess-file :
      (s s' : NameServerState Db) (resp m : Message) (target rest more k : CString) (perms : ℤ)
      → scan_until b'|' m.body ≡ some (target, rest)
      → scan_char_int b'|' rest ≡ some (perms, more)
      → handle_addaccess D s m ≡ some (s', resp)
      → file s'.db k ≡ file s.db k
  unfolding handle_addaccess add_access
  addaccess-file s s' resp m target rest more k perms e e' h =
      ground (arith, grant_access-file s m target k perms)

  -- A user who is not the owner has the rights of the entry.
  check-listed :
      (db : Db) (user filename : CString) (perms : ℤ)
      → owned_by (file db filename) user ≡ false
      → prepare db select_permissions ≡ true
      → permissions db filename user ≡ some perms
      → (required : ℕ) → check_permission D db user filename required ≡ grants perms required
  unfolding check_permission
  check-listed db user filename perms other ready listed required =
      elim (Bool-cases (prepare db select_owner)) [
        | inl e ↦ rw (e, other, ready, listed) refl
        | inr e ↦ rw (e, ready, listed) refl
      ]

  -- Whatever rights a user who is not the owner of the file had before, behind an ADDACCESS of the client
  -- that succeeds the user may read the file exactly where the flag is -R, and write it exactly where the
  -- flag is -W: the new right replaces the old ones, so behind -R and then -W a read is refused. The name
  -- server's query for the rights must be prepared, the file's name fit its array, and the user's name have
  -- no bar and some character.
  pub addaccess-check_permission :
      (s s' : NameServerState Db) (resp : Message) (owner filename user flag : CString) (perms : ℕ)
      → length filename < 256
      → IsUser user
      → flag_permissions flag ≡ some perms
      → owned_by (file s.db filename) user ≡ false
      → handle_addaccess D s (grant_message owner filename user perms) ≡ some (s', resp)
      → resp.error_code ≡ success
      → prepare s'.db select_permissions ≡ true
      → (check_permission D s'.db user filename access_read ≡ str_eq flag (codes "-R"))
        × (check_permission D s'.db user filename access_write ≡ str_eq flag (codes "-W"))
  addaccess-check_permission s s' resp owner filename user flag perms short name f other h ok
        ready =
      let m = grant_message owner filename user perms in
      let e = scan_until-field b'|' user (show_nat perms) name.no_bar name.some_character in
      let e' = scan_number perms in
      let whole : m.filename ≡ filename = take_all 255 filename (omega arith) in
      let entry =
        (addaccess-permissions D laws s s' resp m user (b'|' ∷ show_nat perms) [] filename user
          (pos perms) e e' h ok).2 in
      let row =
        addaccess-file s s' resp m user (b'|' ∷ show_nat perms) [] filename (pos perms) e e' h in
      let listed : permissions s'.db filename user ≡ some (pos perms) =
        entry ∙ rw (whole, str_eq_refl filename, str_eq_refl user) refl in
      let checked =
        check-listed s'.db user filename (pos perms) (ap (λ r. owned_by r user) row ∙ other) ready
          listed in
      let (a, b) = flag-Grants flag perms f in (checked access_read ∙ a, checked access_write ∙ b)
