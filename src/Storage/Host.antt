-- ===== src/Storage/Host.antt =====
-- What a storage server stands on: the file system and the SQLite table `file_metadata`. Neither is
-- part of the program: they are a parameter, with the documented effect of the calls.
use network_doc.Base.{none, List, ℕ, ◌≡◌, Bool, Option, some, if◌then◌else◌, CString, str_eq}

-- A row of the table `file_metadata`.
pub record MetadataRow : Type 0 where
  pub filename : CString
  pub word_count : ℕ
  pub char_count : ℕ
  pub sentence_count : ℕ
  pub last_modified : ℕ

-- A row of the table `checkpoints`.
pub record CheckpointRow : Type 0 where
  pub filename : CString
  pub tag : CString
  pub checkpoint_file : CString
  pub created_at : ℕ

pub record Host : Type 1 where
  pub Disk : Type 0
  -- access(path, F_OK) == 0
  pub exists : Disk → CString → Bool
  -- fopen(path, "r") and the bytes that fread finds, up to the first NUL; `none` where fopen fails.
  pub contents : Disk → CString → Option CString
  -- fopen(path, "w"), fputs and fclose; `none` where fopen fails.
  pub write : Disk → CString → CString → Option Disk
  -- unlink(path) == 0
  pub unlink : Disk → CString → Option Disk
  pub Db : Type 0
  -- SELECT … WHERE filename = ?; the outer `none` is a statement that does not prepare.
  pub select : Db → CString → Option (Option MetadataRow)
  -- INSERT, INSERT OR REPLACE and DELETE; `none` is a statement that does not prepare or finish.
  pub insert : Db → MetadataRow → Option Db
  pub replace : Db → MetadataRow → Option Db
  pub remove : Db → CString → Option Db
  -- SELECT checkpoint_file FROM checkpoints WHERE filename = ? AND tag = ?, the first row.
  pub find_checkpoint : Db → CString → CString → Option (Option CString)
  -- SELECT tag, created_at FROM checkpoints WHERE filename = ? ORDER BY created_at DESC
  pub checkpoints : Db → CString → Option (List (CString × ℕ))
  pub insert_checkpoint : Db → CheckpointRow → Option Db

-- A file that is written holds the text, one that is unlinked is gone, and no other file changes. A
-- checkpoint that is the first of its tag is found, and the other table does not matter to it.
module _ (H : Host) where
  open H use {Disk, Db, contents, write, unlink, replace, find_checkpoint, insert_checkpoint}

  pub record HostLaws : Type 0 where
    pub contents-write :
        (d d' : Disk) (path text k : CString)
        → write d path text ≡ some d'
        → contents d' k ≡ (if str_eq path k then some text else contents d k)
    pub contents-unlink :
        (d d' : Disk) (path k : CString)
        → unlink d path ≡ some d'
        → contents d' k ≡ (if str_eq path k then none else contents d k)
    pub find-insert_checkpoint :
        (db db' : Db) (r : CheckpointRow)
        → insert_checkpoint db r ≡ some db'
        → find_checkpoint db r.filename r.tag ≡ some none
        → find_checkpoint db' r.filename r.tag ≡ some (some r.checkpoint_file)
    pub find-replace :
        (db db' : Db) (r : MetadataRow) (filename tag : CString)
        → replace db r ≡ some db'
        → find_checkpoint db' filename tag ≡ find_checkpoint db filename tag
