-- ===== src/NameServer/Database.antt =====
-- SQLite as the name server uses it, through the statements that src/nameserver/ prepares. The engine
-- is not part of the program: it is a parameter, with the documented effect of each statement.
use network_doc.Base.{
  ℕ, ◌≡◌, Bool, ◌&&◌, Option, none, some, List, if◌then◌else◌, CString, str_eq, ℤ,
}

-- A row of the table `files`.
pub record FileRow : Type 0 where
  pub filename : CString
  pub owner : CString
  pub storage_server_id : ℤ
  pub replica_server_id : ℤ
  pub word_count : ℤ
  pub sentence_count : ℤ
  pub created_at : ℕ
  pub modified_at : ℕ
  pub accessed_at : ℕ
  pub is_folder : Bool

-- A row of the table `access_requests`.
pub record RequestRow : Type 0 where
  pub filename : CString
  pub requester : CString
  pub access_type : ℤ
  pub requested_at : ℕ

-- The statements that are prepared; a SELECT on `files` is named by its columns.
pub data Statement : Type 0 where
  select_owner select_servers select_owner_servers select_server select_permissions : Statement
  insert_file insert_folder delete_file delete_access update_accessed update_modified : Statement
  replace_access revoke_access insert_request select_requests select_filenames : Statement

pub record Database : Type 1 where
  pub Db : Type 0
  -- Whether sqlite3_prepare_v2 returns SQLITE_OK.
  pub prepare : Db → Statement → Bool
  -- SELECT … FROM files WHERE filename = ?
  pub file : Db → CString → Option FileRow
  -- SELECT permissions FROM access_control WHERE filename = ? AND username = ?
  pub permissions : Db → CString → CString → Option ℤ
  -- SELECT filename FROM files
  pub filenames : Db → List CString
  -- The rows of handle_view's two statements: with -a, and for one user.
  pub view_all : Db → List FileRow
  pub view_of : Db → CString → List FileRow
  -- The pending requests for the files of one owner.
  pub pending : Db → CString → List RequestRow
  -- Statements that write: `some` is SQLITE_DONE with the new contents.
  pub insert : Db → FileRow → Option Db
  pub delete : Db → CString → Option Db
  pub clear_access : Db → CString → Option Db
  pub set_accessed : Db → CString → ℕ → Option Db
  pub set_modified : Db → CString → ℕ → Option Db
  pub grant : Db → CString → CString → ℤ → Option Db
  pub revoke : Db → CString → CString → Option Db
  pub request : Db → RequestRow → Option Db

-- The columns that a UPDATE of a time stamp leaves alone.
abbrev pub SameFile : Option FileRow → Option FileRow → Type 0
SameFile none none = Unit
SameFile none (some b) = ⊥
SameFile (some a) none = ⊥
SameFile (some a) (some b) =
    (a.owner ≡ b.owner)
    × (a.storage_server_id ≡ b.storage_server_id)
    × (a.replica_server_id ≡ b.replica_server_id)

-- What the documentation of SQLite says of these statements.
module _ (D : Database) where
  open D use {
    Db, file, permissions, insert, delete, clear_access, set_accessed, set_modified, grant, revoke,
    request,
  }

  pub record DatabaseLaws : Type 0 where
    pub file-insert :
        (db db' : Db) (r : FileRow) (k : CString)
        → insert db r ≡ some db'
        → file db' k ≡ (if str_eq r.filename k then some r else file db k)
    -- The file name is the primary key.
    pub file-insert_new :
        (db db' : Db) (r : FileRow) → insert db r ≡ some db' → file db r.filename ≡ none
    pub permissions-insert :
        (db db' : Db) (r : FileRow) (k u : CString)
        → insert db r ≡ some db'
        → permissions db' k u ≡ permissions db k u
    pub permissions-set_accessed :
        (db db' : Db) (name k u : CString) (now : ℕ)
        → set_accessed db name now ≡ some db'
        → permissions db' k u ≡ permissions db k u
    pub permissions-set_modified :
        (db db' : Db) (name k u : CString) (now : ℕ)
        → set_modified db name now ≡ some db'
        → permissions db' k u ≡ permissions db k u
    pub permissions-request :
        (db db' : Db) (r : RequestRow) (k u : CString)
        → request db r ≡ some db'
        → permissions db' k u ≡ permissions db k u
    pub file-delete :
        (db db' : Db) (name k : CString)
        → delete db name ≡ some db'
        → file db' k ≡ (if str_eq name k then none else file db k)
    pub file-clear_access :
        (db db' : Db) (name k : CString) → clear_access db name ≡ some db' → file db' k ≡ file db k
    pub file-set_accessed :
        (db db' : Db) (name k : CString) (now : ℕ)
        → set_accessed db name now ≡ some db'
        → SameFile (file db k) (file db' k)
    pub file-set_modified :
        (db db' : Db) (name k : CString) (now : ℕ)
        → set_modified db name now ≡ some db'
        → SameFile (file db k) (file db' k)
    pub file-grant :
        (db db' : Db) (name user k : CString) (perms : ℤ)
        → grant db name user perms ≡ some db'
        → file db' k ≡ file db k
    pub file-revoke :
        (db db' : Db) (name user k : CString)
        → revoke db name user ≡ some db'
        → file db' k ≡ file db k
    pub file-request :
        (db db' : Db) (r : RequestRow) (k : CString)
        → request db r ≡ some db'
        → file db' k ≡ file db k
    pub permissions-grant :
        (db db' : Db) (name user k u : CString) (perms : ℤ)
        → grant db name user perms ≡ some db'
        → permissions db' k u
          ≡ (if str_eq name k && str_eq user u then some perms else permissions db k u)
    pub permissions-revoke :
        (db db' : Db) (name user k u : CString)
        → revoke db name user ≡ some db'
        → permissions db' k u
          ≡ (if str_eq name k && str_eq user u then none else permissions db k u)
    pub permissions-clear_access :
        (db db' : Db) (name k u : CString)
        → clear_access db name ≡ some db'
        → permissions db' k u ≡ (if str_eq name k then none else permissions db k u)
    pub permissions-delete :
        (db db' : Db) (name k u : CString)
        → delete db name ≡ some db'
        → permissions db' k u ≡ permissions db k u
