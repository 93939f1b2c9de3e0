-- ===== src/NameServer/Locks/Table.antt =====
-- The lock table as a relation: what an acquisition and a release do to the lock of a sentence.
use network_doc.Base.{
  ℕ, ◌≤◌, ◌<◌, ◌≡◌, refl, ◌≢◌, ◌⊎◌, inl, inr, false, List, [], ◌∷◌, ◌++◌, arith, ==_refl,
  Bool-cases, length, length-append, All, All-append, CString, str_eq_iff, str_eq_refl, ℤ, eq_ℤ_iff,
}
use network_doc.NameServer.State.{SentenceLock, max_locks}
use network_doc.NameServer.Locks.{
  LockCheck, free, held, taken, locks_sentence, check_lock, is_released, release_lock,
}

-- The lock is on another sentence than the lock l.
abbrev pub Differs : SentenceLock → SentenceLock → Type 0
Differs l k = locks_sentence l.filename l.sentence_number k ≡ false

-- No sentence has two locks.
abbrev pub IsExclusive : List SentenceLock → Type 0
IsExclusive [] = Unit
IsExclusive (l ∷ rest) = All (Differs l) rest × IsExclusive rest

pub record IsTable (locks : List SentenceLock) : Type 0 where
  pub exclusive : IsExclusive locks
  pub bounded : length locks ≤ max_locks

pub LockCheck-cases :
    (c : LockCheck) → (c ≡ free) ⊎ ((c ≡ held) ⊎ ((l : SentenceLock) × (c ≡ taken l)))
LockCheck-cases free = inl refl
LockCheck-cases held = inr (inl refl)
LockCheck-cases (taken l) = inr (inr (l, refl))

locks_sentence_comm :
    (l k : SentenceLock)
    → locks_sentence l.filename l.sentence_number k ≡ false
    → locks_sentence k.filename k.sentence_number l ≡ false
locks_sentence_comm l k h = ground (
  arith,
  str_eq_iff l.filename k.filename,
  str_eq_iff k.filename l.filename,
  eq_ℤ_iff l.sentence_number k.sentence_number,
  eq_ℤ_iff k.sentence_number l.sentence_number,
)

-- A sentence with no lock differs from all that is locked.
free-Differs :
    (l : SentenceLock) (locks : List SentenceLock) (sock : ℕ)
    → check_lock l.filename l.sentence_number sock locks ≡ free
    → All (λ k. Differs k l) locks
unfolding check_lock
free-Differs l [] sock h = tt
free-Differs l (k ∷ rest) sock h =
    elim (Bool-cases (locks_sentence l.filename l.sentence_number k)) [
      | inl e ↦ absurd (ground (arith, h))
      | inr e ↦ (locks_sentence_comm l k e, free-Differs l rest sock (ground (arith, h)))
    ]

IsExclusive-append :
    (locks : List SentenceLock) (l : SentenceLock)
    → IsExclusive locks
    → All (λ k. Differs k l) locks
    → IsExclusive (locks ++ l ∷ [])
IsExclusive-append [] l h d = (tt, tt)
IsExclusive-append (k ∷ rest) l h d =
    (All-append (Differs k) rest (l ∷ []) h.0 (d.0, tt), IsExclusive-append rest l h.1 d.1)

module _ (filename : CString) (number : ℤ) (username : CString) (sock : ℕ) where
  release-All :
      (P : SentenceLock → Type 0) (locks : List SentenceLock)
      → All P locks
      → All P (release_lock filename number username sock locks)
  unfolding release_lock
  release-All P [] h = tt
  release-All P (l ∷ rest) h = elim (Bool-cases (is_released filename number username sock l)) [
    | inl e ↦ rw e h.1
    | inr e ↦ rw e (h.0, release-All P rest h.1)
  ]

  release-IsExclusive :
      (locks : List SentenceLock)
      → IsExclusive locks
      → IsExclusive (release_lock filename number username sock locks)
  unfolding release_lock
  release-IsExclusive [] h = tt
  release-IsExclusive (l ∷ rest) h =
      elim (Bool-cases (is_released filename number username sock l)) [
        | inl e ↦ rw e h.1
        | inr e ↦ rw e (release-All (Differs l) rest h.0, release-IsExclusive rest h.1)
      ]

  length-release-le :
      (locks : List SentenceLock)
      → length (release_lock filename number username sock locks) ≤ length locks
  unfolding release_lock
  length-release-le [] = omega arith
  length-release-le (l ∷ rest) = ground (arith, length-release-le rest)

  -- A release by one socket takes no lock from another.
  check-release_ne :
      (f : CString) (n : ℤ) (other : ℕ) (locks : List SentenceLock)
      → sock ≢ other
      → check_lock f n other locks ≡ held
      → check_lock f n other (release_lock filename number username sock locks) ≡ held
  unfolding release_lock check_lock
  check-release_ne f n other [] ne h = h
  check-release_ne f n other (l ∷ rest) ne h = ground (
    arith,
    check-release_ne f n other rest ne,
    str_eq_iff l.filename f,
    str_eq_iff l.filename filename,
    eq_ℤ_iff l.sentence_number n,
    eq_ℤ_iff l.sentence_number number,
  )

-- An entry behind a lock that is held changes nothing.
check-append_held :
    (f : CString) (n : ℤ) (sock : ℕ) (locks : List SentenceLock) (l : SentenceLock)
    → check_lock f n sock locks ≡ held
    → check_lock f n sock (locks ++ l ∷ []) ≡ held
unfolding check_lock
check-append_held f n sock [] l h = cc
check-append_held f n sock (k ∷ rest) l h = ground (arith, check-append_held f n sock rest l)

-- A new lock is held by its socket.
pub check-append_new :
    (locks : List SentenceLock) (l : SentenceLock)
    → check_lock l.filename l.sentence_number l.client_socket locks ≡ free
    → check_lock l.filename l.sentence_number l.client_socket (locks ++ l ∷ []) ≡ held
unfolding check_lock
check-append_new [] l h = ground (
  arith,
  str_eq_refl l.filename,
  eq_ℤ_iff l.sentence_number l.sentence_number,
  ==_refl l.client_socket,
)
check-append_new (k ∷ rest) l h = ground (arith, check-append_new rest l)

-- Where one socket holds a lock, another finds it taken.
pub taken_of_held :
    (f : CString) (n : ℤ) (sock other : ℕ) (locks : List SentenceLock)
    → sock ≢ other
    → check_lock f n sock locks ≡ held
    → (l : SentenceLock) × (check_lock f n other locks ≡ taken l) × (l.client_socket ≡ sock)
unfolding check_lock
taken_of_held f n sock other [] ne h = cc
taken_of_held f n sock other (l ∷ rest) ne h = elim (Bool-cases (locks_sentence f n l)) [
  | inl e ↦ (l, ground arith, ground arith)
  | inr e ↦ rw e (taken_of_held f n sock other rest ne (ground (arith, h)))
]

-- What one request may do to the table: nothing, a new lock on a free sentence, or a release.
pub data LockStep (sock : ℕ) (old new : List SentenceLock) : Type 0 where
  same : new ≡ old → LockStep sock old new
  acquired :
      (l : SentenceLock)
      → l.client_socket ≡ sock
      → check_lock l.filename l.sentence_number sock old ≡ free
      → length old < max_locks
      → new ≡ old ++ l ∷ []
      → LockStep sock old new
  released :
      (filename : CString) (number : ℤ) (username : CString)
      → new ≡ release_lock filename number username sock old
      → LockStep sock old new

-- Every such step keeps the table exclusive and within its bound.
pub LockStep-IsTable :
    {sock : ℕ} {old new : List SentenceLock} → LockStep sock old new → IsTable old → IsTable new
LockStep-IsTable (same e) t = rw e t
LockStep-IsTable {sock} {old} (acquired l s f b e) t = rw e (record {
  exclusive = IsExclusive-append old l t.exclusive (free-Differs l old sock f);
  bounded = omega (arith, length-append old (l ∷ []));
})
LockStep-IsTable {sock} {old} (released f n u e) t = rw e (record {
  exclusive = release-IsExclusive f n u sock old t.exclusive;
  bounded = omega (arith, t.bounded, length-release-le f n u sock old);
})

-- A step of one socket leaves every lock that another socket holds.
pub LockStep-held :
    {sock : ℕ} {old new : List SentenceLock} (f : CString) (n : ℤ) (other : ℕ)
    → LockStep sock old new
    → sock ≢ other
    → check_lock f n other old ≡ held
    → check_lock f n other new ≡ held
LockStep-held f n other (same e) ne h = rw e h
LockStep-held {sock} {old} f n other (acquired l s fr b e) ne h =
    rw e (check-append_held f n other old l h)
LockStep-held {sock} {old} f n other (released g m u e) ne h =
    rw e (check-release_ne g m u sock f n other old ne h)
