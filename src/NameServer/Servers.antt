-- ===== src/NameServer/Servers.antt =====
-- The storage servers that the name server knows: registration, lookup and the choice of a server for
-- a new file.
pub mod Choice
use network_doc.Base.{
  ℕ, zero, suc, ◌+◌, not, ◌&&◌, Option, none, some, List, [], ◌∷◌, ◌++◌, ◌==◌, if◌then◌else◌,
  CString, codes, ℤ, eq_ℤ, ltb_ℤ, inc, dec, is_nonneg,
}
use network_doc.NameServer.State.{StorageServerInfo}
use network_doc.Message.{strncpy}
use network_doc.Format.{show_int}

-- The loop of `get_ss_by_id`.
unfoldable pub get_ss_by_id : List StorageServerInfo → ℤ → Option StorageServerInfo
get_ss_by_id [] ss_id = none
get_ss_by_id (s ∷ rest) ss_id =
    if eq_ℤ s.id ss_id && s.is_alive then some s else get_ss_by_id rest ss_id

-- `replica_id >= 0 ? get_ss_by_id(replica_id) : NULL`
abbrev pub get_replica : List StorageServerInfo → ℤ → Option StorageServerInfo
get_replica servers replica_id =
    if is_nonneg replica_id then get_ss_by_id servers replica_id else none

-- The loop of `handle_create` from index i on, with the index and the server chosen so far.
unfoldable pub least_loop :
    List StorageServerInfo → ℕ → ℕ × StorageServerInfo → ℕ × StorageServerInfo
least_loop [] i best = best
least_loop (s ∷ rest) i best =
    least_loop rest (i + 1)
      (if ltb_ℤ s.file_count best.1.file_count && s.is_alive then (i, s) else best)

-- The server with the fewest files, if there is a server.
unfoldable pub select_server : List StorageServerInfo → Option (ℕ × StorageServerInfo)
select_server [] = none
select_server (s ∷ rest) = some (least_loop rest 1 (0, s))

-- The first server from index i on that is alive and is not the primary.
unfoldable pub select_replica : List StorageServerInfo → ℕ → ℕ → Option StorageServerInfo
select_replica [] i ss_idx = none
select_replica (s ∷ rest) i ss_idx =
    if not (i == ss_idx) && s.is_alive then some s else select_replica rest (i + 1) ss_idx

-- file_count++ at an index
unfoldable pub count_file : List StorageServerInfo → ℕ → List StorageServerInfo
count_file [] i = []
count_file (s ∷ rest) zero = record s { file_count = inc s.file_count } ∷ rest
count_file (s ∷ rest) (suc i) = s ∷ count_file rest i

-- file_count-- at the first server with the id
unfoldable pub uncount_file : List StorageServerInfo → ℤ → List StorageServerInfo
uncount_file [] ss_id = []
uncount_file (s ∷ rest) ss_id =
    if eq_ℤ s.id ss_id
    then record s { file_count = dec s.file_count } ∷ rest
    else s ∷ uncount_file rest ss_id

-- "SS:%s:%d"
unfoldable pub server_info : StorageServerInfo → CString
server_info s = codes "SS:" ++ (s.ip ++ (58 ∷ show_int s.port))

-- "|REPLICA:%s:%d" in a buffer of 128 bytes, if there is a replica
unfoldable pub replica_info : Option StorageServerInfo → CString
replica_info none = []
replica_info (some s) = strncpy 127 (codes "|REPLICA:" ++ (s.ip ++ (58 ∷ show_int s.port)))
