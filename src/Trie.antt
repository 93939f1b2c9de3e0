-- ===== src/Trie.antt =====
-- The file trie of src/common/trie.c: its operations. The nodes are in Trie/Node, the proofs in the
-- other children.
mod Node
pub mod Search
pub mod Size
unfoldable pub use Node.*
use network_doc.Base.{ℕ, ◌+◌, ◌-◌, Bool, CString, if◌then◌else◌}

pub record Trie : Type 0 where
  pub root : TrieNode
  pub size : ℕ

abbrev pub trie_create : Trie
trie_create = record { root = create_node; size = 0 }

unfoldable pub trie_insert : Trie → CString → Trie
unfolding insert_node
trie_insert t name =
    let (root, was_end) = insert_node name name t.root in
    record { root = root; size = if was_end then t.size else t.size + 1 }

unfoldable pub trie_search : Trie → CString → Bool
unfolding search_node
trie_search t name = search_node name t.root

unfoldable pub trie_delete : Trie → CString → Trie
unfolding delete_helper trie_search
trie_delete t name =
    if trie_search t name
    then record { root = (delete_helper name t.root).0; size = t.size - 1 }
    else t
