-- ===== src/NameServer/Catalogue.antt =====
-- The trie is an index of the table `files`: a search finds exactly the names of its rows.
pub mod Steps
use network_doc.Base.{
  or_same, ℕ, ◌-◌, ◌≡◌, refl, ◌∙◌, ◌≢◌, inl, inr, Bool, true, false, not, ◌&&◌, ◌||◌, Option, none,
  some, List, [], ◌∷◌, arith, if◌then◌else◌, Option-cases, is_some, All, CString, str_eq, IsBytes,
}
use network_doc.Trie.{trie_insert, trie_search, trie_delete}
use network_doc.NameServer.State.{NameServerState}
use network_doc.NameServer.Database.{Database, FileRow, delete_file, update_modified}
use network_doc.Trie.{Trie, trie_create}
use network_doc.Trie.Search.{search-insert, search-delete, search-create}
use network_doc.NameServer.Database.{SameFile, DatabaseLaws}
use network_doc.NameServer.Files.{touch_accessed, delete_rows}
use network_doc.NameServer.Dispatch.{delete}

-- The loop of `load_files_from_db` over the rows of SELECT filename FROM files.
unfoldable pub load_files : Trie → List CString → Trie
load_files t [] = t
load_files t (name ∷ names) = load_files (trie_insert t name) names

-- The whole function: `none` where the statement cannot be prepared, and the trie stays as it is.
unfoldable pub load_files_from_db : Trie → Option (List CString) → Trie
load_files_from_db t none = t
load_files_from_db t (some names) = load_files t names

-- Whether a name is on a list.
unfoldable pub listed : List CString → CString → Bool
listed [] k = false
listed (name ∷ names) k = str_eq name k || listed names k

search-load_files :
    (t : Trie) (names : List CString) (k : CString)
    → All IsBytes names
    → IsBytes k
    → trie_search (load_files t names) k ≡ (listed names k || trie_search t k)
unfolding load_files listed
search-load_files t [] k h b = refl
search-load_files t (name ∷ names) k h b =
    search-load_files (trie_insert t name) names k h.1 b
    ∙ ground (arith, search-insert t name k h.0 b)

-- After loading names of bytes into the empty trie, a search finds exactly the loaded names.
pub load_files_lem :
    (names : List CString) (k : CString)
    → All IsBytes names
    → IsBytes k
    → trie_search (load_files trie_create names) k ≡ listed names k
unfolding trie_search
load_files_lem names k h b =
    search-load_files trie_create names k h b ∙ ground (arith, search-create k)

module _ (D : Database) (laws : DatabaseLaws D) where
  open D use {Db, prepare, file, delete, clear_access, set_accessed, set_modified}

  -- The trie finds a name exactly when the table has a row for it.
  abbrev pub Agrees : NameServerState Db → Type 0
  Agrees s = (k : CString) → IsBytes k → trie_search s.file_trie k ≡ is_some (file s.db k)

  -- The statements of `handle_delete` succeed.
  pub record DeletesSucceed : Type 0 where
    pub prepared : (db : Db) → prepare db delete_file ≡ true
    pub done : (db : Db) (name : CString) → delete db name ≢ none

  abbrev SameNames : Db → Db → Type 0
  SameNames db db' = (k : CString) → is_some (file db' k) ≡ is_some (file db k)

  -- What a request does to the catalogue.
  data CatalogueStep (s t : NameServerState Db) : Type 0 where
    kept : t.file_trie ≡ s.file_trie → SameNames s.db t.db → CatalogueStep s t
    added :
        (name : CString)
        → IsBytes name
        → t.file_trie ≡ trie_insert s.file_trie name
        → ((k : CString) → is_some (file t.db k) ≡ (str_eq name k || is_some (file s.db k)))
        → CatalogueStep s t
    removed :
        (name : CString)
        → IsBytes name
        → t.file_trie ≡ trie_delete s.file_trie name
        → ((k : CString) → is_some (file t.db k) ≡ (not (str_eq name k) && is_some (file s.db k)))
        → CatalogueStep s t

  CatalogueStep-Agrees : {s t : NameServerState Db} → CatalogueStep s t → Agrees s → Agrees t
  CatalogueStep-Agrees (kept e same) h k b = rw (e, same) (h k b)
  CatalogueStep-Agrees {s} (added name bytes e rows) h k b =
      rw (e, rows, ← h k b) (search-insert s.file_trie name k bytes b)
  CatalogueStep-Agrees {s} (removed name bytes e rows) h k b =
      rw (e, rows, ← h k b) (search-delete s.file_trie name k bytes b)

  SameFile-is_some : (a b : Option FileRow) → SameFile a b → is_some b ≡ is_some a
  SameFile-is_some none none h = refl
  SameFile-is_some none (some b) h = absurd h
  SameFile-is_some (some a) none h = absurd h
  SameFile-is_some (some a) (some b) h = refl

  names-accessed :
      (db : Db) (name : CString) (now : ℕ) → SameNames db (touch_accessed D db name now)
  names-accessed db name now k = elim (Option-cases (set_accessed db name now)) [
    | inl e ↦ ground arith
    | inr (db', e) ↦ ground (
      arith,
      SameFile-is_some (file db k) (file db' k) (laws.file-set_accessed db db' name k now e),
    )
  ]

  names-modified :
      (db : Db) (name : CString) (now : ℕ)
      → SameNames db
          (if prepare db update_modified then or_same db (set_modified db name now) else db)
  names-modified db name now k = elim (Option-cases (set_modified db name now)) [
    | inl e ↦ ground arith
    | inr (db', e) ↦ ground (
      arith,
      SameFile-is_some (file db k) (file db' k) (laws.file-set_modified db db' name k now e),
    )
  ]

  names-delete :
      DeletesSucceed
      → (db : Db) (name k : CString)
      → is_some (file (delete_rows D db name) k) ≡ (not (str_eq name k) && is_some (file db k))
  names-delete ok db name k = elim (Option-cases (delete db name)) [
    | inl e ↦ absurd (ok.done db name e)
    | inr (db', e) ↦ elim (Option-cases (clear_access db' name)) [
      | inl e' ↦ ground (arith, ok.prepared db, laws.file-delete db db' name k e)
      | inr (db'', e') ↦ ground (
        arith,
        ok.prepared db,
        laws.file-delete db db' name k e,
        laws.file-clear_access db' db'' name k e',
      )
    ]
  ]
