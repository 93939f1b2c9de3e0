-- ===== src/NameServer/Numbering.antt =====
-- The numbers of the storage servers.
pub mod Requests
pub mod Runs
use network_doc.Base.{
  ℕ, zero, suc, ◌+◌, ◌≤◌, ◌<◌, ◌≡◌, refl, sym, ap, ◌∙◌, inl, inr, true, false, some, List, [], ◌∷◌,
  ◌++◌, map, arith, Bool-cases, some_inj, length, length-append, get_elem?, ℤ, pos, inc, eq_ℤ,
  eq_ℤ_iff,
}
use mathlib.Core.Path.{subst}
use network_doc.NameServer.State.{NameServerState, StorageServerInfo, max_storage_servers}
use network_doc.NameServer.Servers.{get_ss_by_id, count_file, uncount_file}

abbrev pub ids : List StorageServerInfo → List ℤ
ids = map (λ s. s.id)

-- The numbers count up from i.
abbrev pub CountUp : ℕ → List ℤ → Type 0
CountUp i [] = Unit
CountUp i (z ∷ zs) = (z ≡ pos i) × CountUp (suc i) zs

-- The server at index i has the number i + 1, there are no more than the array holds, and the next number
-- is one more than there are servers.
pub record IsNumbered {Db : Type 0} (s : NameServerState Db) : Type 0 where
  pub numbered : CountUp 1 (ids s.storage_servers)
  pub next : s.next_ss_id ≡ pos (suc (length (ids s.storage_servers)))
  pub few : length (ids s.storage_servers) ≤ max_storage_servers

-- What a request does to the table of storage servers: its numbers stay, or the next one is added.
pub data Numbering {Db : Type 0} (s t : NameServerState Db) : Type 0 where
  kept : ids t.storage_servers ≡ ids s.storage_servers → t.next_ss_id ≡ s.next_ss_id → Numbering s t
  added :
      length (ids s.storage_servers) < max_storage_servers
      → ids t.storage_servers ≡ ids s.storage_servers ++ s.next_ss_id ∷ []
      → t.next_ss_id ≡ inc s.next_ss_id
      → Numbering s t

CountUp-append : (i : ℕ) (zs : List ℤ) → CountUp i zs → CountUp i (zs ++ pos (i + length zs) ∷ [])
CountUp-append i [] h = (ap pos (omega arith), tt)
CountUp-append i (z ∷ zs) h =
    let e : pos (suc i + length zs) ≡ pos (i + suc (length zs)) = ap pos (omega arith) in
    (h.0, subst (λ n. CountUp (suc i) (zs ++ n ∷ [])) e (CountUp-append (suc i) zs h.1))

pub step-IsNumbered :
    {Db : Type 0} {s t : NameServerState Db} → Numbering s t → IsNumbered s → IsNumbered t
step-IsNumbered {s} {t} (kept e n) k = record {
  numbered = rw e (k.numbered);
  next = n ∙ k.next ∙ ap (λ zs. pos (suc (length zs))) (sym e);
  few = rw e (k.few);
}
step-IsNumbered {s} {t} (added room e n) k =
    let zs = ids s.storage_servers in
    let l : length (zs ++ s.next_ss_id ∷ []) ≡ suc (length zs) =
      omega (arith, length-append zs (s.next_ss_id ∷ [])) in
    record {
      numbered =
          let z : pos (1 + length zs) ≡ pos (suc (length zs)) = ap pos (omega arith) in
          rw (e, k.next) (subst (λ n. CountUp 1 (zs ++ n ∷ [])) z (CountUp-append 1 zs k.numbered));
      next =
          n
          ∙ ap inc k.next
          ∙ ap (λ i. pos (suc i)) (sym l)
          ∙ ap (λ z. pos (suc (length z))) (sym e);
      few = rw (e, l) (omega arith);
    }

pub length-ids : (servers : List StorageServerInfo) → length (ids servers) ≡ length servers
length-ids [] = refl
length-ids (x ∷ xs) = ap suc (length-ids xs)

pub ids-append :
    (xs : List StorageServerInfo) (y : StorageServerInfo) → ids (xs ++ y ∷ []) ≡ ids xs ++ y.id ∷ []
ids-append [] y = refl
ids-append (x ∷ xs) y = ap (λ zs. x.id ∷ zs) (ids-append xs y)

pub ids-count_file : (xs : List StorageServerInfo) (i : ℕ) → ids (count_file xs i) ≡ ids xs
unfolding count_file
ids-count_file [] i = refl
ids-count_file (x ∷ xs) zero = refl
ids-count_file (x ∷ xs) (suc i) = ap (λ zs. x.id ∷ zs) (ids-count_file xs i)

pub ids-uncount_file : (xs : List StorageServerInfo) (id : ℤ) → ids (uncount_file xs id) ≡ ids xs
unfolding uncount_file
ids-uncount_file [] id = refl
ids-uncount_file (x ∷ xs) id = elim (Bool-cases (eq_ℤ x.id id)) [
  | inl e ↦ rw (e, uncount_file) refl
  | inr e ↦ rw (e, uncount_file) (ap (λ zs. x.id ∷ zs) (ids-uncount_file xs id))
]

-- A number counted up finds the server at its index.
pub get_ss_by_id-at :
    (i j : ℕ) (servers : List StorageServerInfo) (x : StorageServerInfo)
    → CountUp i (ids servers)
    → get_elem? servers j ≡ some x
    → x.is_alive ≡ true
    → get_ss_by_id servers (pos (i + j)) ≡ some x
unfolding get_ss_by_id
get_ss_by_id-at i j [] x c h a = cc h
get_ss_by_id-at i zero (y ∷ ys) x c h a =
    let e : y ≡ x = some_inj h in
    let alive : y.is_alive ≡ true = ap (λ (z : StorageServerInfo). z.is_alive) e ∙ a in
    let n : eq_ℤ y.id (pos (i + 0)) ≡ true =
      (eq_ℤ_iff y.id (pos (i + 0))).1 (c.0 ∙ ap pos (omega arith)) in
    ground (arith, n, alive, e)
get_ss_by_id-at i (suc j) (y ∷ ys) x c h a =
    let n : eq_ℤ y.id (pos (i + suc j)) ≡ false = ground (arith, c.0) in
    let e : pos (i + suc j) ≡ pos (suc i + j) = ap pos (omega arith) in
    rw (n, get_ss_by_id) (ap (get_ss_by_id ys) e ∙ get_ss_by_id-at (suc i) j ys x c.1 h a)
