-- ===== src/Examples/Index.antt =====
-- Runs of the trie.
use network_doc.Base.{
  ◌+◌, ◌≡◌, not, ◌&&◌, ◌||◌, [], ◌∷◌, arith, if◌then◌else◌, CString, codes, str_eq, IsBytes,
}
use network_doc.Trie.{Trie, trie_create, trie_insert, trie_search, trie_delete}
use network_doc.Trie.Search.{search-insert, search-delete}
use network_doc.Trie.Size.{
  IsCounted, create-IsCounted, insert-IsCounted, delete-IsCounted, size-insert,
}
use network_doc.NameServer.Catalogue.{load_files, listed, load_files_lem}

abbrev notes : CString
notes = codes "no"

abbrev news : CString
news = codes "ne"

abbrev one_name : Trie
one_name = trie_insert trie_create notes

pub notes-IsBytes : IsBytes notes
notes-IsBytes = (omega arith, (omega arith, tt))

news-IsBytes : IsBytes news
news-IsBytes = (omega arith, (omega arith, tt))

search-insert_example :
    trie_search (trie_insert one_name news) notes
    ≡ (str_eq news notes || trie_search one_name notes)
search-insert_example = search-insert one_name news notes news-IsBytes notes-IsBytes

search-delete_example :
    trie_search (trie_delete (trie_insert one_name news) notes) news
    ≡ (not (str_eq notes news) && trie_search (trie_insert one_name news) news)
search-delete_example =
    search-delete (trie_insert one_name news) notes news notes-IsBytes news-IsBytes

insert-IsCounted_example : IsCounted (trie_insert trie_create notes)
insert-IsCounted_example = insert-IsCounted trie_create notes create-IsCounted

one_name-IsCounted : IsCounted one_name
one_name-IsCounted = insert-IsCounted trie_create notes create-IsCounted

delete-IsCounted_example : IsCounted (trie_delete one_name notes)
delete-IsCounted_example = delete-IsCounted one_name notes one_name-IsCounted

size-insert_example :
    (trie_insert one_name news).size
    ≡ (if trie_search one_name news then one_name.size else one_name.size + 1)
size-insert_example = size-insert one_name news

load_files_lem_example :
    trie_search (load_files trie_create (notes ∷ news ∷ [])) news ≡ listed (notes ∷ news ∷ []) news
load_files_lem_example =
    load_files_lem (notes ∷ news ∷ []) news (notes-IsBytes, (news-IsBytes, tt)) news-IsBytes
