-- ===== src/Examples/Laws.antt =====
-- The database in memory obeys the laws of the statements.
use network_doc.Base.{
  ◌≡◌, refl, inl, inr, ◌&&◌, none, some, arith, if◌then◌else◌, Bool-cases, Option-cases, some_inj,
  is_some, CString, str_eq,
}
use network_doc.NameServer.Database.{FileRow, DatabaseLaws, SameFile}
use network_doc.NameServer.Catalogue.{DeletesSucceed}
use network_doc.Examples.Memory.{
  Tables, find_file, find_entry, memory, find-deleted, find-revoked, find-cleared, find-accessed,
  find-modified,
}
use mathlib.Core.Path.{subst}

inserted :
    (db db' : Tables) (r : FileRow) (k : CString)
    → memory.insert db r ≡ some db'
    → find_file db'.files k ≡ (if str_eq r.filename k then some r else find_file db.files k)
unfolding find_file
inserted db db' r k h = elim (Bool-cases (is_some (find_file db.files r.filename))) [
  | inl e ↦ absurd (ground arith)
  | inr e ↦
      subst
        (λ (x : Tables).
          find_file x.files k ≡ (if str_eq r.filename k then some r else find_file db.files k))
        (some_inj (rw e at h)) refl
]

inserted_new :
    (db db' : Tables) (r : FileRow)
    → memory.insert db r ≡ some db'
    → find_file db.files r.filename ≡ none
inserted_new db db' r h = elim (Option-cases (find_file db.files r.filename)) [
  | inl e ↦ e
  | inr (q, e) ↦ absurd (ground arith)
]

inserted_entries :
    (db db' : Tables) (r : FileRow) (k u : CString)
    → memory.insert db r ≡ some db'
    → find_entry db'.entries k u ≡ find_entry db.entries k u
inserted_entries db db' r k u h = elim (Bool-cases (is_some (find_file db.files r.filename))) [
  | inl e ↦ absurd (ground arith)
  | inr e ↦
      subst (λ (x : Tables). find_entry x.entries k u ≡ find_entry db.entries k u)
        (some_inj (rw e at h)) refl
]

pub memory-DatabaseLaws : DatabaseLaws memory
unfolding find_entry
memory-DatabaseLaws = record {
  file-insert = inserted;
  file-insert_new = inserted_new;
  permissions-insert = inserted_entries;
  permissions-set_accessed = λ db db' name k u now h.
      subst (λ (x : Tables). find_entry x.entries k u ≡ find_entry db.entries k u) (some_inj h)
        refl;
  permissions-set_modified = λ db db' name k u now h.
      subst (λ (x : Tables). find_entry x.entries k u ≡ find_entry db.entries k u) (some_inj h)
        refl;
  permissions-request = λ db db' r k u h.
      subst (λ (x : Tables). find_entry x.entries k u ≡ find_entry db.entries k u) (some_inj h)
        refl;
  file-delete = λ db db' name k h.
      subst
        (λ (x : Tables).
          find_file x.files k ≡ (if str_eq name k then none else find_file db.files k))
        (some_inj h) (find-deleted db.files name k);
  file-clear_access = λ db db' name k h.
      subst (λ (x : Tables). find_file x.files k ≡ find_file db.files k) (some_inj h) refl;
  file-set_accessed = λ db db' name k now h.
      subst (λ (x : Tables). SameFile (find_file db.files k) (find_file x.files k)) (some_inj h)
        (find-accessed db.files name k now);
  file-set_modified = λ db db' name k now h.
      subst (λ (x : Tables). SameFile (find_file db.files k) (find_file x.files k)) (some_inj h)
        (find-modified db.files name k now);
  file-grant = λ db db' name user k perms h.
      subst (λ (x : Tables). find_file x.files k ≡ find_file db.files k) (some_inj h) refl;
  file-revoke = λ db db' name user k h.
      subst (λ (x : Tables). find_file x.files k ≡ find_file db.files k) (some_inj h) refl;
  file-request = λ db db' r k h.
      subst (λ (x : Tables). find_file x.files k ≡ find_file db.files k) (some_inj h) refl;
  permissions-grant = λ db db' name user k u perms h.
      subst
        (λ (x : Tables).
          find_entry x.entries k u
          ≡ (if str_eq name k && str_eq user u then some perms else find_entry db.entries k u))
        (some_inj h) refl;
  permissions-revoke = λ db db' name user k u h.
      subst
        (λ (x : Tables).
          find_entry x.entries k u
          ≡ (if str_eq name k && str_eq user u then none else find_entry db.entries k u))
        (some_inj h) (find-revoked db.entries name user k u);
  permissions-clear_access = λ db db' name k u h.
      subst
        (λ (x : Tables).
          find_entry x.entries k u ≡ (if str_eq name k then none else find_entry db.entries k u))
        (some_inj h) (find-cleared db.entries name k u);
  permissions-delete = λ db db' name k u h.
      subst (λ (x : Tables). find_entry x.entries k u ≡ find_entry db.entries k u) (some_inj h)
        refl;
}

pub memory-DeletesSucceed : DeletesSucceed memory memory-DatabaseLaws
memory-DeletesSucceed = record {
  prepared = λ db. refl;
  done = λ db name h. absurd (ground (arith, h));
}
