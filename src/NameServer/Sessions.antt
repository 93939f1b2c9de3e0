-- ===== src/NameServer/Sessions.antt =====
-- A write session: the lock that `handle_write` gives, who is refused meanwhile, and the commit.
use network_doc.Base.{
  or_same, ℕ, ◌-◌, ◌≡◌, refl, ◌≢◌, inl, inr, true, some, List, [], ◌∷◌, ◌++◌, arith, ltb,
  if◌then◌else◌, ==_refl, Bool-cases, length, take_all, CString, str_eq_refl, ℤ, eq_ℤ_iff,
}
use network_doc.Message.{
  max_filename, max_username, success, locked, Message, IsMessage, init_message, strncpy,
  set_message_error,
}
use network_doc.Trie.{trie_search}
use network_doc.Format.{scan_int}
use network_doc.NameServer.State.{NameServerState, SentenceLock, max_locks}
use network_doc.NameServer.Database.{Database, update_modified}
use network_doc.NameServer.Permission.{check_permission, access_write}
use network_doc.NameServer.Locks.{free, held, check_lock, release_lock}
use network_doc.NameServer.Locks.Table.{check-append_new, taken_of_held, LockCheck-cases}
use network_doc.NameServer.Edits.{new_lock, lock_sentence, handle_write, handle_commit}

-- Releasing the lock that was added last restores the table.
release-append_new :
    (locks : List SentenceLock) (l : SentenceLock)
    → check_lock l.filename l.sentence_number l.client_socket locks ≡ free
    → release_lock l.filename l.sentence_number l.username l.client_socket (locks ++ l ∷ []) ≡ locks
unfolding check_lock release_lock
release-append_new [] l h = ground (
  arith,
  str_eq_refl l.filename,
  eq_ℤ_iff l.sentence_number l.sentence_number,
  str_eq_refl l.username,
  ==_refl l.client_socket,
)
release-append_new (k ∷ rest) l h = ground (arith, release-append_new rest l)

module _ (D : Database) where
  open D use {Db}

  lock_sentence-held :
      (s : NameServerState Db) (m : Message) (number : ℤ) (sock now : ℕ)
      → IsMessage m
      → (lock_sentence D s m number sock now).1.error_code ≡ success
      → check_lock m.filename number sock (lock_sentence D s m number sock now).0.locks ≡ held
  unfolding lock_sentence
  lock_sentence-held s m number sock now fits h =
      elim (LockCheck-cases (check_lock m.filename number sock s.locks)) [
        | inl e ↦ elim (Bool-cases (ltb (length s.locks) max_locks)) [
          | inl room ↦
              let l = new_lock m number sock now in
              let same_name : strncpy (max_filename - 1) m.filename ≡ m.filename =
                take_all 255 m.filename (omega (arith, fits.filename_fits)) in
              ground (arith, e, room, same_name, check-append_new s.locks l)
          | inr full ↦ unfold set_message_error in ground (arith, e, full)
        ]
        | inr (inl e) ↦ ground arith
        | inr (inr (l, e)) ↦ unfold set_message_error in ground (arith, e)
      ]

  -- `handle_write` on a message with a number, for a file that is there and a user who may write it.
  handle_write-permitted :
      (s : NameServerState Db) (sock : ℕ) (m : Message) (now : ℕ) (number : ℤ) (rest : CString)
      → scan_int m.body ≡ some (number, rest)
      → trie_search s.file_trie m.filename ≡ true
      → check_permission D s.db m.username m.filename access_write ≡ true
      → handle_write D s sock m now ≡ lock_sentence D s m number sock now
  unfolding handle_write
  handle_write-permitted s sock m now number rest e found allowed = ground arith

  -- A write that succeeds was permitted.
  handle_write-success :
      (s : NameServerState Db) (sock : ℕ) (m : Message) (now : ℕ) (number : ℤ) (rest : CString)
      → scan_int m.body ≡ some (number, rest)
      → (handle_write D s sock m now).1.error_code ≡ success
      → (trie_search s.file_trie m.filename ≡ true)
        × (check_permission D s.db m.username m.filename access_write ≡ true)
        × (handle_write D s sock m now ≡ lock_sentence D s m number sock now)
  unfolding handle_write set_message_error
  handle_write-success s sock m now number rest e h = ground arith

  -- A well-formed WRITE_LOCK with a sentence number that succeeds was sent by a user who may write the
  -- file, and leaves its socket holding the lock of the sentence.
  pub write-held :
      (s : NameServerState Db) (sock : ℕ) (m : Message) (now : ℕ) (number : ℤ) (rest : CString)
      → IsMessage m
      → scan_int m.body ≡ some (number, rest)
      → (handle_write D s sock m now).1.error_code ≡ success
      → (check_permission D s.db m.username m.filename access_write ≡ true)
        × (check_lock m.filename number sock (handle_write D s sock m now).0.locks ≡ held)
  write-held s sock m now number rest fits e h =
      let (found, allowed, same) = handle_write-success s sock m now number rest e h in
      (allowed, rw same (lock_sentence-held s m number sock now fits (rw same at h)))

  -- While one socket holds the lock of a sentence of a file in the trie, a WRITE_LOCK of another socket
  -- for it, by a user who may write the file, changes nothing and is answered with ERR_LOCKED.
  pub write-refused :
      (s : NameServerState Db) (holder sock : ℕ) (m : Message) (now : ℕ) (number : ℤ)
      (rest : CString)
      → holder ≢ sock
      → check_lock m.filename number holder s.locks ≡ held
      → scan_int m.body ≡ some (number, rest)
      → trie_search s.file_trie m.filename ≡ true
      → check_permission D s.db m.username m.filename access_write ≡ true
      → ((handle_write D s sock m now).0 ≡ s)
        × ((handle_write D s sock m now).1.error_code ≡ locked)
  unfolding lock_sentence set_message_error
  write-refused s holder sock m now number rest ne k e found allowed =
      let (l, t, _) = taken_of_held m.filename number holder sock s.locks ne k in
      rw (handle_write-permitted s sock m now number rest e found allowed, lock_sentence, t)
        (refl, refl)

  lock_sentence-locks :
      (s : NameServerState Db) (m : Message) (number : ℤ) (sock now : ℕ)
      → check_lock m.filename number sock s.locks ≡ free
      → (lock_sentence D s m number sock now).1.error_code ≡ success
      → (lock_sentence D s m number sock now).0.locks ≡ s.locks ++ new_lock m number sock now ∷ []
  unfolding lock_sentence set_message_error
  lock_sentence-locks s m number sock now f h = ground arith

  -- The state behind `handle_commit`.
  abbrev committed : NameServerState Db → ℕ → Message → ℕ → ℤ → NameServerState Db
  committed u sock c later number = record u {
    locks = release_lock c.filename number c.username sock u.locks;
    db =
        if D.prepare u.db update_modified
        then or_same u.db (D.set_modified u.db c.filename later)
        else u.db;
  }

  handle_commit_lem :
      (u : NameServerState Db) (sock : ℕ) (c : Message) (later : ℕ) (number : ℤ) (rest : CString)
      → scan_int c.body ≡ some (number, rest)
      → handle_commit D u sock c later ≡ some (committed u sock c later number, init_message)
  unfolding handle_commit
  handle_commit_lem u sock c later number rest e = rw (e, handle_commit) refl

  -- A commit after a successful, well-formed write for a sentence with no lock, from the same socket
  -- and user and with the same file and number, succeeds and restores the lock table that was there
  -- before the write.
  pub commit-write :
      (s : NameServerState Db) (sock : ℕ) (m c : Message) (now later : ℕ) (number : ℤ)
      (rest rest' : CString)
      → IsMessage m
      → scan_int m.body ≡ some (number, rest)
      → scan_int c.body ≡ some (number, rest')
      → c.filename ≡ m.filename
      → c.username ≡ m.username
      → check_lock m.filename number sock s.locks ≡ free
      → (handle_write D s sock m now).1.error_code ≡ success
      → (t : NameServerState Db) × (resp : Message) × (handle_commit D
            (handle_write D s sock m now).0
            sock
            c
            later
          ≡ some (t, resp))
        × (resp.error_code ≡ success)
        × (t.locks ≡ s.locks)
  commit-write s sock m c now later number rest rest' fits e e' file user f h =
      let (found, allowed, same) = handle_write-success s sock m now number rest e h in
      let l = new_lock m number sock now in
      let u = (handle_write D s sock m now).0 in
      let name : strncpy (max_filename - 1) m.filename ≡ m.filename =
        take_all 255 m.filename (omega (arith, fits.filename_fits)) in
      let who : strncpy (max_username - 1) m.username ≡ m.username =
        take_all 63 m.username (omega (arith, fits.username_fits)) in
      let locks : u.locks ≡ s.locks ++ l ∷ [] =
        rw same (lock_sentence-locks s m number sock now f (rw same at h)) in
      (
        committed u sock c later number,
        init_message,
        handle_commit_lem u sock c later number rest' e',
        refl,
        rw (locks, file, user) (cc (release-append_new s.locks l (rw name f), name, who)),
      )
