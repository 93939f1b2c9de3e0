-- ===== src/NameServer/Servers/Choice.antt =====
-- Which server a new file goes to, and which one is its replica.
use network_doc.Base.{
  ℕ, suc, ◌+◌, ◌≡◌, refl, sym, ◌∙◌, ◌≢◌, inl, inr, true, false, not, ◌&&◌, some, List, [], ◌∷◌,
  ◌++◌, append-nil, append_assoc, arith, ◌==◌, Bool-cases, some_inj, length, get_elem?,
  length-append, All, All-append, ℤ, pos, negsuc, ltb_ℤ,
}
use mathlib.Core.Path.{subst}
use network_doc.NameServer.State.{StorageServerInfo}
use network_doc.NameServer.Servers.{least_loop, select_server, select_replica}

-- No alive server of the list has fewer files.
abbrev pub NoFewer : ℤ → List StorageServerInfo → Type 0
NoFewer n = All (λ t. t.is_alive ≡ true → ltb_ℤ t.file_count n ≡ false)

ltb_ℤ_trans : (a b c : ℤ) → ltb_ℤ a b ≡ true → ltb_ℤ c b ≡ false → ltb_ℤ c a ≡ false
ltb_ℤ_trans (pos a) (pos b) (pos c) h k = ground arith
ltb_ℤ_trans (pos a) (pos b) (negsuc c) h k = ground arith
ltb_ℤ_trans (pos a) (negsuc b) c h k = ground arith
ltb_ℤ_trans (negsuc a) (pos b) (pos c) h k = ground arith
ltb_ℤ_trans (negsuc a) (pos b) (negsuc c) h k = ground arith
ltb_ℤ_trans (negsuc a) (negsuc b) (pos c) h k = ground arith
ltb_ℤ_trans (negsuc a) (negsuc b) (negsuc c) h k = ground arith

ltb_ℤ_irrefl : (a : ℤ) → ltb_ℤ a a ≡ false
ltb_ℤ_irrefl (pos a) = ground arith
ltb_ℤ_irrefl (negsuc a) = ground arith

NoFewer-mono :
    (a b : ℤ) (servers : List StorageServerInfo)
    → ltb_ℤ a b ≡ true
    → NoFewer b servers
    → NoFewer a servers
NoFewer-mono a b [] h k = tt
NoFewer-mono a b (t ∷ rest) h k =
    (λ alive. ltb_ℤ_trans a b t.file_count h (k.0 alive), NoFewer-mono a b rest h k.1)

get_elem?-length :
    (seen rest : List StorageServerInfo) (s : StorageServerInfo)
    → get_elem? (seen ++ s ∷ rest) (length seen) ≡ some s
get_elem?-length [] rest s = refl
get_elem?-length (t ∷ seen) rest s = get_elem?-length seen rest s

-- The loop's result is at its index in the whole list, and no alive server has fewer files.
least_loop_lem :
    (whole seen rest : List StorageServerInfo) (i : ℕ) (best : ℕ × StorageServerInfo)
    → whole ≡ seen ++ rest
    → i ≡ length seen
    → get_elem? whole best.0 ≡ some best.1
    → NoFewer best.1.file_count seen
    → (get_elem? whole (least_loop rest i best).0 ≡ some (least_loop rest i best).1)
      × NoFewer (least_loop rest i best).1.file_count whole
unfolding least_loop
least_loop_lem whole seen [] i best e l at k = (at, rw (e, append-nil) k)
least_loop_lem whole seen (s ∷ rest) i best e l at k =
    elim (Bool-cases (ltb_ℤ s.file_count best.1.file_count && s.is_alive)) [
      | inl fewer ↦
          rw (fewer, least_loop)
            (least_loop_lem whole (seen ++ s ∷ []) rest (i + 1) (i, s) e' l'
              (rw (e, l) (get_elem?-length seen rest s))
              (All-append _ seen (s ∷ [])
                (NoFewer-mono s.file_count best.1.file_count seen (ground arith) k)
                (λ alive. ltb_ℤ_irrefl s.file_count, tt)))
      | inr other ↦
          rw (other, least_loop)
            (least_loop_lem whole (seen ++ s ∷ []) rest (i + 1) best e' l' at
              (All-append _ seen (s ∷ []) k (λ alive. not_fewer other alive, tt)))
    ]
  where
    e' : whole ≡ (seen ++ s ∷ []) ++ rest
    e' = e ∙ sym (append_assoc seen (s ∷ []) rest)

    l' : i + 1 ≡ length (seen ++ s ∷ [])
    l' = omega (arith, length-append seen (s ∷ []))

    not_fewer :
        (ltb_ℤ s.file_count best.1.file_count && s.is_alive) ≡ false
        → s.is_alive ≡ true
        → ltb_ℤ s.file_count best.1.file_count ≡ false
    not_fewer h alive = ground (arith, h, alive)

select_replica_lem :
    (servers : List StorageServerInfo) (i ss_idx : ℕ) (r : StorageServerInfo)
    → select_replica servers i ss_idx ≡ some r
    → (j : ℕ) × (get_elem? servers j ≡ some r) × (i + j ≢ ss_idx) × (r.is_alive ≡ true)
unfolding select_replica
select_replica_lem [] i ss_idx r h = cc
select_replica_lem (s ∷ rest) i ss_idx r h = elim (Bool-cases (not (i == ss_idx) && s.is_alive)) [
  | inl yes_here ↦ (0, ground arith, ground arith, ground arith)
  | inr later ↦
      let (j, at, ne, alive) =
        select_replica_lem rest (i + 1) ss_idx r (rw (later, select_replica) at h) in
      (suc j, at, omega arith, alive)
]

-- The server that `handle_create` and `handle_createfolder` choose stands in the table at the index
-- whose file_count they increase, and no alive server has fewer files. The replica, if there is one,
-- is alive and stands at another index.
pub select_server_lem :
    (servers : List StorageServerInfo) (idx : ℕ) (ss : StorageServerInfo)
    → select_server servers ≡ some (idx, ss)
    → (get_elem? servers idx ≡ some ss)
      × NoFewer ss.file_count servers
      × ((r : StorageServerInfo)
          → select_replica servers 0 idx ≡ some r
          → (j : ℕ) × (get_elem? servers j ≡ some r) × (j ≢ idx) × (r.is_alive ≡ true))
unfolding select_server
select_server_lem [] idx ss h = cc
select_server_lem (s ∷ rest) idx ss h =
    let e = some_inj h in
    let (at, least) =
      least_loop_lem (s ∷ rest) (s ∷ []) rest 1 (0, s) refl refl refl
        (λ alive. ltb_ℤ_irrefl s.file_count, tt) in
    (
      cc (at, e),
      subst (λ (b : ℕ × StorageServerInfo). NoFewer b.1.file_count (s ∷ rest)) e least,
      λ r k.
          let (j, place, ne, alive) = select_replica_lem (s ∷ rest) 0 idx r k in
          (j, place, omega arith, alive),
    )
