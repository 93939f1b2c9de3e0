-- ===== src/Trie/Node.antt =====
-- The nodes of src/common/trie.c. A node's 256 child pointers are a function on the index, and NULL
-- is `null`. A path is rebuilt where the source writes in place: no node has two parents.
use network_doc.Base.{
  ℕ, zero, suc, ◌%◌, Bool, true, false, not, ◌&&◌, ◌||◌, [], ◌∷◌, Option, none, some, CString, ◌==◌,
  if◌then◌else◌,
}

mutual
  pub data TrieNode : Type 0 where
    node : Bool → Option CString → (ℕ → Child) → TrieNode

  pub data Child : Type 0 where
    null : Child
    ptr : TrieNode → Child

abbrev pub alphabet_size : ℕ
alphabet_size = 256

-- node->children, node->is_end_of_word, node->filename
abbrev pub children : TrieNode → ℕ → Child
children (node e f ch) = ch

abbrev pub is_end_of_word : TrieNode → Bool
is_end_of_word (node e f ch) = e

abbrev pub filename : TrieNode → Option CString
filename (node e f ch) = f

abbrev pub is_ptr : Child → Bool
is_ptr null = false
is_ptr (ptr n) = true

-- children[i] = v
abbrev pub update : (ℕ → Child) → ℕ → Child → ℕ → Child
update ch i v j = if i == j then v else ch j

-- (unsigned char)filename[i]
abbrev pub uchar : ℕ → ℕ
uchar c = c % 256

abbrev pub create_node : TrieNode
create_node = node false none (λ i. null)

abbrev pub or_create : Child → TrieNode
or_create null = create_node
or_create (ptr n) = n

-- The loop of `trie_insert` from a node on: the new node, and whether the last node of the path
-- already ended a word.
unfoldable pub insert_node : CString → CString → TrieNode → TrieNode × Bool
insert_node [] word n = (node true (some word) (children n), is_end_of_word n)
insert_node (c ∷ rest) word n =
    let (child, was_end) = insert_node rest word (or_create (children n (uchar c))) in
    (node (is_end_of_word n) (filename n) (update (children n) (uchar c) (ptr child)), was_end)

-- The loop of `trie_search`.
unfoldable pub search_node : CString → TrieNode → Bool
search_node [] n = is_end_of_word n
search_node (c ∷ rest) n = elim (children n (uchar c)) [ null ↦ false | ptr m ↦ search_node rest m ]

-- Whether some child below index n is not NULL.
unfoldable pub any_child : ℕ → (ℕ → Child) → Bool
any_child zero ch = false
any_child (suc n) ch = is_ptr (ch n) || any_child n ch

-- The node after the deletion, and whether the caller frees it.
unfoldable pub delete_helper : CString → TrieNode → TrieNode × Bool
delete_helper [] (node e f ch) =
    (node false (if e then none else f) ch, not (any_child alphabet_size ch))
delete_helper (c ∷ rest) (node e f ch) = elim (ch (uchar c)) [
  | null ↦ (node e f ch, false)
  | ptr m ↦
      let (m', gone) = delete_helper rest m in
      let ch' = if gone then update ch (uchar c) null else update ch (uchar c) (ptr m') in
      (node e f ch', gone && not e && not (any_child alphabet_size ch'))
]
