-- ===== src/Trie/Search.antt =====
-- What a search finds after an insertion and after a deletion.
use network_doc.Base.{
  ℕ, zero, suc, ◌<◌, ◌≡◌, refl, ◌⊎◌, inl, inr, Bool, true, false, not, ◌&&◌, ◌||◌, Option, none, [],
  ◌∷◌, arith, if◌then◌else◌, Bool-cases, CString, str_eq, str_eq_iff, IsBytes,
}
use native.Mathlib.Decide.{dec_lt}
use network_doc.Trie.{
  alphabet_size, update, Trie, TrieNode, node, null, ptr, Child, children, insert_node, search_node,
  delete_helper, any_child, trie_insert, trie_search, trie_delete, create_node, uchar, or_create,
}

pub search-create : (j : CString) → search_node j create_node ≡ false
unfolding search_node
search-create [] = refl
search-create (c ∷ rest) = refl

search_child : CString → Child → Bool
search_child s null = false
search_child s (ptr m) = search_node s m

search-insert_node :
    (k j word : CString) (n : TrieNode)
    → IsBytes k
    → IsBytes j
    → search_node j (insert_node k word n).0 ≡ (str_eq k j || search_node j n)
unfolding search_node insert_node str_eq
search-insert_node [] [] word n hk hj = refl
search-insert_node [] (c ∷ j) word n hk hj = refl
search-insert_node (c ∷ k) [] word n hk hj = refl
search-insert_node (c ∷ k) (d ∷ j) word n hk hj = ground (
  arith,
  search-insert_node k j word (or_create (children n (uchar c))) hk.1 hj.1,
  search-create j,
)

any_child_none : (n : ℕ) (ch : ℕ → Child) (i : ℕ) → any_child n ch ≡ false → i < n → ch i ≡ null
unfolding any_child
any_child_none zero ch i h lt = absurd (omega arith)
any_child_none (suc n) ch i h lt = elim (dec_lt i n) [
  | yes below ↦ any_child_none n ch i (ground arith) below
  | no above ↦ let e : i ≡ n = omega arith in rw e (ground arith)
]

-- A node that ends no word and has no child holds no word.
search-empty :
    (j : CString) (e : Bool) (f : Option CString) (ch : ℕ → Child)
    → e ≡ false
    → any_child alphabet_size ch ≡ false
    → search_node j (node e f ch) ≡ false
unfolding search_node
search-empty [] e f ch he h = he
search-empty (c ∷ j) e f ch he h = ground (arith, any_child_none alphabet_size ch (uchar c) h)

pub Child-cases : (x : Child) → (x ≡ null) ⊎ ((m : TrieNode) × (x ≡ ptr m))
Child-cases null = inl refl
Child-cases (ptr m) = inr (m, refl)

-- So the caller frees only nodes that hold no word.
search-gone :
    (k j : CString) (n : TrieNode)
    → (delete_helper k n).1 ≡ true
    → search_node j (delete_helper k n).0 ≡ false
unfolding delete_helper
search-gone [] j (node e f ch) h =
    search-empty j false (if e then none else f) ch refl (ground arith)
search-gone (c ∷ k) j (node e f ch) h = elim (Child-cases (ch (uchar c))) [
  | inl x ↦ ground arith
  | inr (m, x) ↦ ground (arith, search-empty j e f (update ch (uchar c) null))
]

module _ (k j : CString)
    (after : (m : TrieNode)
      → search_node j (delete_helper k m).0 ≡ (not (str_eq k j) && search_node j m))
    (gone : (m : TrieNode)
      → (delete_helper k m).1 ≡ true
      → search_node j (delete_helper k m).0 ≡ false) where
  search-delete_step :
      (c d : ℕ) (e : Bool) (f : Option CString) (ch : ℕ → Child)
      → c < 256
      → d < 256
      → search_node (d ∷ j) (delete_helper (c ∷ k) (node e f ch)).0
        ≡ (not (str_eq (c ∷ k) (d ∷ j)) && search_node (d ∷ j) (node e f ch))
  unfolding search_node delete_helper str_eq
  search-delete_step c d e f ch hc hd = elim (Child-cases (ch (uchar c))) [
    | inl x ↦ ground arith
    | inr (m, x) ↦ ground (arith, after m, gone m)
  ]

search-delete_helper :
    (k j : CString) (n : TrieNode)
    → IsBytes k
    → IsBytes j
    → search_node j (delete_helper k n).0 ≡ (not (str_eq k j) && search_node j n)
unfolding search_node delete_helper str_eq
search-delete_helper [] [] (node e f ch) hk hj = refl
search-delete_helper [] (c ∷ j) (node e f ch) hk hj = refl
search-delete_helper (c ∷ k) [] (node e f ch) hk hj = ground arith
search-delete_helper (c ∷ k) (d ∷ j) (node e f ch) hk hj =
    search-delete_step k j (λ m. search-delete_helper k j m hk.1 hj.1) (search-gone k j) c d e f ch
      hk.0 hj.0

-- After an insertion into any trie a name of bytes is found exactly if it is the inserted name, also
-- of bytes, or was found before.
pub search-insert :
    (t : Trie) (k j : CString)
    → IsBytes k
    → IsBytes j
    → trie_search (trie_insert t k) j ≡ (str_eq k j || trie_search t j)
unfolding trie_search trie_insert
search-insert t k j hk hj = search-insert_node k j k t.root hk hj

-- After a deletion from any trie a name of bytes is found exactly if it is not the deleted name, also
-- of bytes, and was found before.
pub search-delete :
    (t : Trie) (k j : CString)
    → IsBytes k
    → IsBytes j
    → trie_search (trie_delete t k) j ≡ (not (str_eq k j) && trie_search t j)
unfolding trie_delete
search-delete t k j hk hj = elim (Bool-cases (trie_search t k)) [
  | inl found ↦
      rw (found, trie_delete) (unfold trie_search in search-delete_helper k j t.root hk hj)
  | inr missing ↦ ground (arith, str_eq_iff k j)
]
