-- ===== src/Trie/Size.antt =====
-- The size field counts the words.
use network_doc.Base.{
  ℕ, zero, suc, ◌+◌, ◌≤◌, ◌<◌, ◌≡◌, refl, sym, ap, inl, inr, Bool, true, false, Option, none, some,
  [], ◌∷◌, arith, if◌then◌else◌, CString,
}
use native.Mathlib.Decide.{dec_lt}
use network_doc.Trie.{
  alphabet_size, update, Trie, TrieNode, node, null, ptr, Child, children, insert_node, search_node,
  delete_helper, any_child, trie_insert, trie_search, trie_delete, trie_create, create_node, uchar,
  or_create,
}
use network_doc.Trie.Search.{Child-cases, search-create}

sum_below : ℕ → (ℕ → ℕ) → ℕ
sum_below zero g = 0
sum_below (suc n) g = g n + sum_below n g

-- The number of nodes that end a word.
mutual
  pub words : TrieNode → ℕ
  words (node e f ch) = (if e then 1 else 0) + sum_below alphabet_size (λ i. words_child (ch i))

  pub words_child : Child → ℕ
  words_child null = 0
  words_child (ptr m) = words m

abbrev bit : Bool → ℕ
bit b = if b then 1 else 0

words_node :
    (e : Bool) (f : Option CString) (ch : ℕ → Child)
    → words (node e f ch) ≡ bit e + sum_below alphabet_size (λ i. words_child (ch i))
unfolding words
words_node e f ch = refl

sum-update_above :
    (n : ℕ) (ch : ℕ → Child) (i : ℕ) (v : Child)
    → n ≤ i
    → sum_below n (λ x. words_child (update ch i v x)) ≡ sum_below n (λ x. words_child (ch x))
unfolding sum_below
sum-update_above zero ch i v h = refl
sum-update_above (suc n) ch i v h = ground (arith, sum-update_above n ch i v)

sum-update :
    (n : ℕ) (ch : ℕ → Child) (i : ℕ) (v : Child)
    → i < n
    → sum_below n (λ x. words_child (update ch i v x)) + words_child (ch i)
      ≡ sum_below n (λ x. words_child (ch x)) + words_child v
unfolding sum_below
sum-update zero ch i v h = absurd (omega arith)
sum-update (suc n) ch i v h = elim (dec_lt i n) [
  | yes below ↦ ground (arith, sum-update n ch i v)
  | no above ↦ ground (
    arith,
    sum-update_above n ch i v,
    ap (λ x. words_child (ch x)) (let e : i ≡ n = omega arith in e),
  )
]

sum_zero :
    (n : ℕ) (ch : ℕ → Child) → any_child n ch ≡ false → sum_below n (λ x. words_child (ch x)) ≡ 0
unfolding sum_below any_child words
sum_zero zero ch h = refl
sum_zero (suc n) ch h = ground (arith, sum_zero n ch)

any_child-null : any_child alphabet_size (λ i. null) ≡ false
unfolding any_child
any_child-null = refl

words-create : words create_node ≡ 0
words-create =
    omega
      (arith, words_node false none (λ i. null), sum_zero alphabet_size (λ i. null) any_child-null)

words-or_create : (x : Child) → words (or_create x) ≡ words_child x
unfolding words
words-or_create null = words-create
words-or_create (ptr m) = refl

words_ptr : (m : TrieNode) → words_child (ptr m) ≡ words m
unfolding words
words_ptr m = refl

words_null : words_child null ≡ 0
unfolding words
words_null = refl

words-insert_node :
    (k word : CString) (n : TrieNode)
    → words (insert_node k word n).0 + bit (insert_node k word n).1 ≡ words n + 1
unfolding insert_node
words-insert_node [] word (node e f ch) =
    ground (arith, words_node e f ch, words_node true (some word) ch)
words-insert_node (c ∷ k) word (node e f ch) =
    let child = or_create (ch (uchar c)) in
    let m = (insert_node k word child).0 in
    omega (
      arith,
      words_node e f ch,
      words_node e f (update ch (uchar c) (ptr m)),
      sum-update alphabet_size ch (uchar c) (ptr m) (omega arith),
      words-insert_node k word child,
      words-or_create (ch (uchar c)),
      words_ptr m,
    )

insert_was_end : (k word : CString) (n : TrieNode) → (insert_node k word n).1 ≡ search_node k n
unfolding insert_node search_node
insert_was_end [] word n = refl
insert_was_end (c ∷ k) word n = elim (Child-cases (children n (uchar c))) [
  | inl x ↦ ground (arith, insert_was_end k word create_node, search-create k)
  | inr (m, x) ↦ ground (arith, insert_was_end k word m)
]

words-gone :
    (k : CString) (n : TrieNode) → (delete_helper k n).1 ≡ true → words (delete_helper k n).0 ≡ 0
unfolding delete_helper
words-gone [] (node e f ch) h =
    ground (arith, words_node false (if e then none else f) ch, sum_zero alphabet_size ch)
words-gone (c ∷ k) (node e f ch) h = elim (Child-cases (ch (uchar c))) [
  | inl x ↦ ground arith
  | inr (m, x) ↦
      let ch' = update ch (uchar c) null in
      ground (arith, words_node e f ch', sum_zero alphabet_size ch')
]

words-delete_helper :
    (k : CString) (n : TrieNode) → words (delete_helper k n).0 + bit (search_node k n) ≡ words n
unfolding delete_helper search_node
words-delete_helper [] (node e f ch) =
    ground (arith, words_node e f ch, words_node false (if e then none else f) ch)
words-delete_helper (c ∷ k) (node e f ch) = elim (Child-cases (ch (uchar c))) [
  | inl x ↦ ground arith
  | inr (m, x) ↦
      let m' = (delete_helper k m).0 in
      let kept = update ch (uchar c) (ptr m') in
      let cleared = update ch (uchar c) null in
      ground (
        arith,
        words-delete_helper k m,
        words-gone k m,
        words_ptr m,
        words_ptr m',
        words_null,
        words_node e f ch,
        words_node e f kept,
        words_node e f cleared,
        sum-update alphabet_size ch (uchar c) (ptr m') (omega arith),
        sum-update alphabet_size ch (uchar c) null (omega arith),
      )
]

-- The size field is the number of nodes that end a word.
abbrev pub IsCounted : Trie → Type 0
IsCounted t = t.size ≡ words t.root

pub create-IsCounted : IsCounted trie_create
create-IsCounted = sym words-create

-- If the size field is the number of nodes that end a word, it is so after an insertion, whatever the
-- name.
pub insert-IsCounted : (t : Trie) (k : CString) → IsCounted t → IsCounted (trie_insert t k)
unfolding trie_insert
insert-IsCounted t k h = ground (arith, words-insert_node k k t.root)

-- If the size field is the number of nodes that end a word, it is so after a deletion, whatever the
-- name.
pub delete-IsCounted : (t : Trie) (k : CString) → IsCounted t → IsCounted (trie_delete t k)
unfolding trie_delete
delete-IsCounted t k h = ground (arith, words-delete_helper k t.root)

-- An insertion leaves the size field as it is if a search finds the name, and adds one to it otherwise.
pub size-insert :
    (t : Trie) (k : CString)
    → (trie_insert t k).size ≡ (if trie_search t k then t.size else t.size + 1)
unfolding trie_insert trie_search
size-insert t k = ground (arith, insert_was_end k k t.root)
