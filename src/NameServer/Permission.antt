-- ===== src/NameServer/Permission.antt =====
-- `check_permission` of src/nameserver/nm_db.c.
use network_doc.Base.{
  ℕ, ◌-◌, ◌%◌, ◌^◌, Bool, true, false, ◌&&◌, Option, none, some, ◌==◌, if◌then◌else◌, CString,
  str_eq, ℤ, pos, negsuc,
}
use Prim.Native.Nat.{bit_and}
use network_doc.NameServer.Database.{Database, FileRow, select_owner, select_permissions}

abbrev pub access_read : ℕ
access_read = 1

abbrev pub access_write : ℕ
access_write = 2

-- The bit pattern of an int.
abbrev pub word : ℤ → ℕ
word (pos n) = n % 2 ^ 32
word (negsuc n) = 2 ^ 32 - 1 - n % 2 ^ 32

-- (perms & required_perm) == required_perm
unfoldable pub grants : ℤ → ℕ → Bool
grants perms required = bit_and (word perms) required == required

-- The row of the file names the user as its owner.
abbrev pub owned_by : Option FileRow → CString → Bool
owned_by none user = false
owned_by (some r) user = str_eq r.owner user

abbrev pub grants_option : Option ℤ → ℕ → Bool
grants_option none required = false
grants_option (some perms) required = grants perms required

module _ (D : Database) where
  open D use {Db, prepare, file, permissions}

  -- Owners have all permissions; others need an entry of the access control list.
  unfoldable pub check_permission : Db → CString → CString → ℕ → Bool
  check_permission db username filename required =
      if prepare db select_owner && owned_by (file db filename) username
      then true
      else prepare db select_permissions
        && grants_option (permissions db filename username) required

  -- The inline owner test of the access handlers.
  unfoldable pub is_owner : Db → CString → CString → Bool
  is_owner db username filename = prepare db select_owner && owned_by (file db filename) username
