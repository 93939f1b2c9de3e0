-- ===== src/Examples/Memory.antt =====
-- A database in memory that obeys the laws of the statements, and the messages of the runs.
use network_doc.Base.{
  ℕ, ◌<◌, ◌≡◌, refl, inl, inr, Bool, true, false, not, ◌&&◌, ◌||◌, Option, none, some, List, [],
  ◌∷◌, arith, if◌then◌else◌, Bool-cases, some_inj, keep, is_some, CString, str_eq, str_eq_iff,
  codes, String, ℤ, length, ◌≢◌,
}
use network_doc.NameServer.Database.{Database, FileRow, RequestRow, SameFile}

-- A row of the table `access_control`.
pub record Entry : Type 0 where
  pub filename : CString
  pub username : CString
  pub permissions : ℤ

pub record Tables : Type 0 where
  pub files : List FileRow
  pub entries : List Entry
  pub requests : List RequestRow

unfoldable pub find_file : List FileRow → CString → Option FileRow
find_file [] k = none
find_file (r ∷ rows) k = if str_eq r.filename k then some r else find_file rows k

unfoldable pub find_entry : List Entry → CString → CString → Option ℤ
find_entry [] k u = none
find_entry (e ∷ es) k u =
    if str_eq e.filename k && str_eq e.username u then some e.permissions else find_entry es k u

abbrev pub map_files : (FileRow → FileRow) → List FileRow → List FileRow
map_files f [] = []
map_files f (r ∷ rows) = f r ∷ map_files f rows

abbrev accessed : CString → ℕ → FileRow → FileRow
accessed name now r = if str_eq r.filename name then record r { accessed_at = now } else r

abbrev modified : CString → ℕ → FileRow → FileRow
modified name now r = if str_eq r.filename name then record r { modified_at = now } else r

abbrev pub of_owner : List FileRow → CString → List RequestRow → List RequestRow
of_owner files owner requests =
    keep (λ q. elim (find_file files q.filename) [ none ↦ false | some r ↦ str_eq r.owner owner ])
      requests

abbrev pub memory : Database
memory = record {
  Db = Tables;
  prepare = λ db st. true;
  file = λ db k. find_file db.files k;
  permissions = λ db k u. find_entry db.entries k u;
  filenames = λ db. network_doc.Base.map (λ (r : FileRow). r.filename) db.files;
  view_all = λ db. db.files;
  view_of =
      λ db u. keep (λ r. str_eq r.owner u || is_some (find_entry db.entries r.filename u)) db.files;
  pending = λ db u. of_owner db.files u db.requests;
  insert = λ db r.
      if is_some (find_file db.files r.filename)
      then none
      else some (record db { files = r ∷ db.files });
  delete = λ db k. some (record db { files = keep (λ r. not (str_eq r.filename k)) db.files });
  clear_access =
      λ db k. some (record db { entries = keep (λ e. not (str_eq e.filename k)) db.entries });
  set_accessed = λ db k now. some (record db { files = map_files (accessed k now) db.files });
  set_modified = λ db k now. some (record db { files = map_files (modified k now) db.files });
  grant = λ db k u p.
      some (record db {
        entries = record { filename = k; username = u; permissions = p } ∷ db.entries;
      });
  revoke = λ db k u. some (record db {
    entries = keep (λ e. not (str_eq e.filename k && str_eq e.username u)) db.entries;
  });
  request = λ db r. some (record db { requests = r ∷ db.requests });
}

pub find-deleted :
    (rows : List FileRow) (name k : CString)
    → find_file (keep (λ r. not (str_eq r.filename name)) rows) k
      ≡ (if str_eq name k then none else find_file rows k)
unfolding find_file
find-deleted [] name k = ground arith
find-deleted (r ∷ rows) name k = ground (
  arith,
  find-deleted rows name k,
  str_eq_iff r.filename name,
  str_eq_iff r.filename k,
  str_eq_iff name k,
)

pub find-revoked :
    (es : List Entry) (name user k u : CString)
    → find_entry (keep (λ e. not (str_eq e.filename name && str_eq e.username user)) es) k u
      ≡ (if str_eq name k && str_eq user u then none else find_entry es k u)
unfolding find_entry
find-revoked [] name user k u = ground arith
find-revoked (e ∷ es) name user k u = ground (
  arith,
  find-revoked es name user k u,
  str_eq_iff e.filename name,
  str_eq_iff e.filename k,
  str_eq_iff name k,
  str_eq_iff e.username user,
  str_eq_iff e.username u,
  str_eq_iff user u,
)

pub find-cleared :
    (es : List Entry) (name k u : CString)
    → find_entry (keep (λ e. not (str_eq e.filename name)) es) k u
      ≡ (if str_eq name k then none else find_entry es k u)
unfolding find_entry
find-cleared [] name k u = ground arith
find-cleared (e ∷ es) name k u = ground (
  arith,
  find-cleared es name k u,
  str_eq_iff e.filename name,
  str_eq_iff e.filename k,
  str_eq_iff name k,
)

SameFile-refl : (o : Option FileRow) → SameFile o o
SameFile-refl none = tt
SameFile-refl (some r) = (refl, refl, refl)

pub find-accessed :
    (rows : List FileRow) (name k : CString) (now : ℕ)
    → SameFile (find_file rows k) (find_file (map_files (accessed name now) rows) k)
unfolding find_file
find-accessed [] name k now = tt
find-accessed (r ∷ rows) name k now = elim (Bool-cases (str_eq r.filename name)) [
  | inl e ↦ elim (Bool-cases (str_eq r.filename k)) [
    | inl n ↦ rw (e, n) (refl, refl, refl)
    | inr n ↦ rw (e, n) (find-accessed rows name k now)
  ]
  | inr e ↦ elim (Bool-cases (str_eq r.filename k)) [
    | inl n ↦ rw (e, n) (refl, refl, refl)
    | inr n ↦ rw (e, n) (find-accessed rows name k now)
  ]
]

pub find-modified :
    (rows : List FileRow) (name k : CString) (now : ℕ)
    → SameFile (find_file rows k) (find_file (map_files (modified name now) rows) k)
unfolding find_file
find-modified [] name k now = tt
find-modified (r ∷ rows) name k now = elim (Bool-cases (str_eq r.filename name)) [
  | inl e ↦ elim (Bool-cases (str_eq r.filename k)) [
    | inl n ↦ rw (e, n) (refl, refl, refl)
    | inr n ↦ rw (e, n) (find-modified rows name k now)
  ]
  | inr e ↦ elim (Bool-cases (str_eq r.filename k)) [
    | inl n ↦ rw (e, n) (refl, refl, refl)
    | inr n ↦ rw (e, n) (find-modified rows name k now)
  ]
]
