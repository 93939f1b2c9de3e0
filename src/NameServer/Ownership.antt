-- ===== src/NameServer/Ownership.antt =====
-- What a request by another user than the owner does to the rights on a file: nothing.
pub mod Requests
pub mod Grants
pub mod Runs
use network_doc.Base.{
  ℕ, ◌≡◌, refl, sym, ◌∙◌, ◌≢◌, inl, inr, Bool, true, false, not, ◌&&◌, Option, none, some, List, [],
  ◌∷◌, arith, if◌then◌else◌, Bool-cases, Option-cases, some_inj, or_same, CString, str_eq,
  str_eq_iff, ℤ,
}
use mathlib.Core.Path.{subst}
use network_doc.NameServer.State.{NameServerState}
use network_doc.NameServer.Database.{
  Database, FileRow, RequestRow, SameFile, DatabaseLaws, select_owner, update_accessed,
  update_modified, delete_file, delete_access,
}
use network_doc.NameServer.Permission.{owned_by, is_owner}
use network_doc.NameServer.Files.{touch_accessed, delete_rows}

-- A row of the owner.
abbrev pub OwnedRow : CString → Option FileRow → Type 0
OwnedRow o row = (r : FileRow) × (row ≡ some r) × (r.owner ≡ o)

SameFile-OwnedRow :
    (o : CString) (a b : Option FileRow) → SameFile a b → OwnedRow o a → OwnedRow o b
SameFile-OwnedRow o none none h (r, e, q) = cc
SameFile-OwnedRow o none (some b) h own = absurd h
SameFile-OwnedRow o (some a) none h own = absurd h
SameFile-OwnedRow o (some a) (some b) h (r, e, q) = (b, refl, ground (arith, some_inj e))

owned_by-OwnedRow :
    (o user : CString) (row : Option FileRow) → OwnedRow o row → owned_by row user ≡ true → o ≡ user
owned_by-OwnedRow o user row (r, e, q) h = ground (arith, str_eq_iff r.owner user)

module _ (D : Database) (laws : DatabaseLaws D) (k o : CString) where
  open D use {
    Db, prepare, file, permissions, insert, delete, clear_access, set_accessed, set_modified, grant,
    revoke, request,
  }

  -- The user o owns the file k.
  abbrev pub Owned : Db → Type 0
  Owned db = OwnedRow o (file db k)

  -- The user o owns the file k afterwards, and its access control list is what it was.
  abbrev pub Guarded : Db → Db → Type 0
  Guarded db db' = Owned db' × ((u : CString) → permissions db' k u ≡ permissions db k u)

  pub unchanged : {db db' : Db} → Owned db → db' ≡ db → Guarded db db'
  unchanged {db} own e = rw e (own, λ u. refl)

  pub and_then : {a b c : Db} → Guarded a b → Guarded b c → Guarded a c
  and_then (own, p) (own', p') = (own', λ u. p' u ∙ p u)

  pub insert-Guarded :
      (db db' : Db) (r : FileRow) → Owned db → insert db r ≡ some db' → Guarded db db'
  insert-Guarded db db' r (q, e, own) h =
      let fresh = laws.file-insert_new db db' r h in
      (
        (q, ground (arith, laws.file-insert db db' r k h, str_eq_iff r.filename k), own),
        λ u. laws.permissions-insert db db' r k u h,
      )

  pub touch-Guarded :
      (db : Db) (name : CString) (now : ℕ) → Owned db → Guarded db (touch_accessed D db name now)
  touch-Guarded db name now own = elim (Option-cases (set_accessed db name now)) [
    | inl e ↦ unchanged own (ground arith)
    | inr (db', e) ↦ elim (Bool-cases (prepare db update_accessed)) [
      | inr n ↦ unchanged own (ground arith)
      | inl n ↦
          rw (n, e)
            (
              SameFile-OwnedRow o (file db k) (file db' k)
                  (laws.file-set_accessed db db' name k now e) own,
              λ u. laws.permissions-set_accessed db db' name k u now e,
            )
    ]
  ]

  pub modify-Guarded :
      (db : Db) (name : CString) (now : ℕ)
      → Owned db
      → Guarded db
          (if prepare db update_modified then or_same db (set_modified db name now) else db)
  modify-Guarded db name now own = elim (Option-cases (set_modified db name now)) [
    | inl e ↦ unchanged own (ground arith)
    | inr (db', e) ↦ elim (Bool-cases (prepare db update_modified)) [
      | inr n ↦ unchanged own (ground arith)
      | inl n ↦
          rw (n, e)
            (
              SameFile-OwnedRow o (file db k) (file db' k)
                  (laws.file-set_modified db db' name k now e) own,
              λ u. laws.permissions-set_modified db db' name k u now e,
            )
    ]
  ]

  pub request-Guarded :
      (db db' : Db) (r : RequestRow) → Owned db → request db r ≡ some db' → Guarded db db'
  request-Guarded db db' r (q, e, own) h =
      ((q, laws.file-request db db' r k h ∙ e, own), λ u. laws.permissions-request db db' r k u h)

  delete-Guarded :
      (db : Db) (name : CString)
      → str_eq name k ≡ false
      → Owned db
      → Guarded db (if prepare db delete_file then or_same db (delete db name) else db)
  delete-Guarded db name other own = elim (Option-cases (delete db name)) [
    | inl e ↦ unchanged own (ground arith)
    | inr (db', e) ↦ elim (Bool-cases (prepare db delete_file)) [
      | inr n ↦ unchanged own (ground arith)
      | inl n ↦
          rw (n, e)
            (
              (own.0, ground (arith, laws.file-delete db db' name k e), own.2),
              λ u. laws.permissions-delete db db' name k u e,
            )
    ]
  ]

  clear-Guarded :
      (db : Db) (name : CString)
      → str_eq name k ≡ false
      → Owned db
      → Guarded db (if prepare db delete_access then or_same db (clear_access db name) else db)
  clear-Guarded db name other own = elim (Option-cases (clear_access db name)) [
    | inl e ↦ unchanged own (ground arith)
    | inr (db', e) ↦ elim (Bool-cases (prepare db delete_access)) [
      | inr n ↦ unchanged own (ground arith)
      | inl n ↦
          rw (n, e)
            (
              (own.0, laws.file-clear_access db db' name k e ∙ own.1, own.2),
              λ u. ground (arith, laws.permissions-clear_access db db' name k u e),
            )
    ]
  ]

  -- Another file is deleted.
  pub delete_rows-Guarded :
      (db : Db) (name : CString)
      → str_eq name k ≡ false
      → Owned db
      → Guarded db (delete_rows D db name)
  delete_rows-Guarded db name other own =
      let first = delete-Guarded db name other own in
      and_then first (clear-Guarded _ name other first.0)

  pub grant-Guarded :
      (db db' : Db) (name target : CString) (perms : ℤ)
      → str_eq name k ≡ false
      → Owned db
      → grant db name target perms ≡ some db'
      → Guarded db db'
  grant-Guarded db db' name target perms other own h = (
    (own.0, laws.file-grant db db' name target k perms h ∙ own.1, own.2),
    λ u. ground (arith, laws.permissions-grant db db' name target k u perms h),
  )

  pub revoke-Guarded :
      (db db' : Db) (name target : CString)
      → str_eq name k ≡ false
      → Owned db
      → revoke db name target ≡ some db'
      → Guarded db db'
  revoke-Guarded db db' name target other own h = (
    (own.0, laws.file-revoke db db' name target k h ∙ own.1, own.2),
    λ u. ground (arith, laws.permissions-revoke db db' name target k u h),
  )

  -- Who passes the owner test for the file k is its owner.
  pub is_owner-other :
      (db : Db) (user name : CString)
      → user ≢ o
      → Owned db
      → is_owner D db user name ≡ true
      → str_eq name k ≡ false
  unfolding is_owner
  is_owner-other db user name ne own h = elim (Bool-cases (str_eq name k)) [
    | inr e ↦ e
    | inl e ↦
        let q : owned_by (file db name) user ≡ true = ground arith in
        let q' : owned_by (file db k) user ≡ true =
          subst (λ (n : CString). owned_by (file db n) user ≡ true) ((str_eq_iff name k).0 e) q in
        absurd (ne (sym (owned_by-OwnedRow o user (file db k) own q')))
  ]
