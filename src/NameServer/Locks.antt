-- ===== src/NameServer/Locks.antt =====
-- The table of sentence locks: the loop of `handle_write` and `release_lock`.
pub mod Table
use network_doc.Base.{ℕ, Bool, ◌&&◌, List, [], ◌∷◌, ◌==◌, if◌then◌else◌, CString, str_eq, ℤ, eq_ℤ}
use network_doc.NameServer.State.{SentenceLock}

-- What the loop over the locks finds for a sentence and a socket.
pub data LockCheck : Type 0 where
  free : LockCheck
  held : LockCheck
  taken : SentenceLock → LockCheck

-- The lock is on this sentence.
abbrev pub locks_sentence : CString → ℤ → SentenceLock → Bool
locks_sentence filename number l = str_eq l.filename filename && eq_ℤ l.sentence_number number

unfoldable pub check_lock : CString → ℤ → ℕ → List SentenceLock → LockCheck
check_lock filename number sock [] = free
check_lock filename number sock (l ∷ rest) =
    if locks_sentence filename number l
    then if l.client_socket == sock then held else taken l
    else check_lock filename number sock rest

abbrev pub is_released : CString → ℤ → CString → ℕ → SentenceLock → Bool
is_released filename number username sock l =
    str_eq l.filename filename
    && (eq_ℤ l.sentence_number number && (str_eq l.username username && l.client_socket == sock))

-- The first lock that fits is removed, and the later ones move up.
unfoldable pub release_lock : CString → ℤ → CString → ℕ → List SentenceLock → List SentenceLock
release_lock filename number username sock [] = []
release_lock filename number username sock (l ∷ rest) =
    if is_released filename number username sock l
    then rest
    else l ∷ release_lock filename number username sock rest
