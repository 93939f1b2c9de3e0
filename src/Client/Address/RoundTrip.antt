-- ===== src/Client/Address/RoundTrip.antt =====
-- The addresses that the name server sends are those that the client reads.
use network_doc.Base.{
  ◌≤◌, ◌≡◌, refl, sym, ap, ◌∙◌, Option, none, some, [], ◌∷◌, ◌++◌, arith, append_assoc, append-nil,
  length, length-append, take_all, All-append, CString, codes, ℤ,
}
use mathlib.Core.Path.{subst}
use network_doc.Format.{is_digit, show_int}
use network_doc.Format.RoundTrip.{NoDigit}
use network_doc.NameServer.State.{StorageServerInfo}
use network_doc.NameServer.Servers.{server_info, replica_info}
use network_doc.NameServer.Edits.{server_and_replica, sentence_info}
use network_doc.Client.Address.Search.{Without, behind-absent, behind-skip}
use network_doc.Client.Address.{Address, no_address, scanned, address_behind, parse_ss_info}
use network_doc.Client.Address.Spelled.{
  IsAddress, address, replica_address, IsReplica, spelled, scan_address-spelled,
  replica_info-spelled, length-spelled, spelled-Without, show_int-Without,
}

-- Whatever follows the primary's address, it is read.
primary_read :
    (s : StorageServerInfo) (rest : CString)
    → IsAddress s
    → NoDigit rest
    → address_behind (codes "SS:") (codes "SS:" ++ spelled s rest) ≡ address s
primary_read s rest a h =
    ap scanned (behind-skip b'S' (codes "S:") [] (spelled s rest) tt)
    ∙ scan_address-spelled s rest a h

parsed :
    (s : StorageServerInfo) (rest : CString) (r : Address)
    → IsAddress s
    → NoDigit rest
    → length rest ≤ 1000
    → address_behind (codes "REPLICA:") (codes "SS:" ++ spelled s rest) ≡ r
    → parse_ss_info (codes "SS:" ++ spelled s rest) ≡ (address s, r)
unfolding parse_ss_info
parsed s rest r a h l e =
    rw
      (
        take_all 65535 (codes "SS:" ++ spelled s rest) (omega (arith, length-spelled s rest a)),
        primary_read s rest a h,
        e,
      )
      refl

-- What stands between the two addresses, if anything.
record IsMiddle (middle : CString) (replica : Option StorageServerInfo) : Type 0 where
  ends_port : NoDigit (middle ++ replica_info replica)
  no_replica : Without b'R' middle
  short : length middle ≤ 500

no_replica_read :
    (s : StorageServerInfo) (middle : CString)
    → IsAddress s
    → Without b'R' middle
    → address_behind (codes "REPLICA:") (codes "SS:" ++ spelled s middle) ≡ no_address
no_replica_read s middle a h = ap scanned (
    behind-absent b'R' (codes "EPLICA:") (codes "SS:" ++ spelled s middle)
      (refl, (refl, (refl, spelled-Without s middle a h))))

replica_read :
    (s r : StorageServerInfo) (middle : CString)
    → IsAddress s
    → IsAddress r
    → Without b'R' middle
    → address_behind
        (codes "REPLICA:")
        (codes "SS:" ++ spelled s (middle ++ b'|' ∷ (codes "REPLICA:" ++ spelled r [])))
      ≡ address r
replica_read s r middle a b h =
    let front : CString = codes "SS:" ++ spelled s (middle ++ b'|' ∷ []) in
    let e : codes "SS:" ++ spelled s (middle ++ b'|' ∷ (codes "REPLICA:" ++ spelled r []))
        ≡ front ++ (codes "REPLICA:" ++ spelled r []) =
      simp append_assoc in
    ap (address_behind (codes "REPLICA:")) e
    ∙ ap scanned (
        behind-skip b'R' (codes "EPLICA:") front (spelled r []) (
          refl,
          (
            refl,
            (
              refl,
              spelled-Without s (middle ++ b'|' ∷ []) a
                  (All-append _ middle (b'|' ∷ []) h (refl, tt)),
            ),
          ),
        ))
    ∙ scan_address-spelled r [] b tt

server_info-spelled :
    (s : StorageServerInfo) (rest : CString) → server_info s ++ rest ≡ codes "SS:" ++ spelled s rest
unfolding server_info
server_info-spelled s rest = simp append_assoc

no_replica_info : (middle : CString) → middle ++ replica_info none ≡ middle
unfolding replica_info
no_replica_info middle = append-nil middle

-- Both addresses are read, whatever stands between them.
parsed_around :
    (s : StorageServerInfo) (replica : Option StorageServerInfo) (middle : CString)
    → IsAddress s
    → IsReplica replica
    → IsMiddle middle replica
    → parse_ss_info (server_info s ++ (middle ++ replica_info replica))
      ≡ (address s, replica_address replica)
parsed_around s none middle a b m =
    let e : middle ++ replica_info none ≡ middle = no_replica_info middle in
    rw (server_info-spelled s (middle ++ replica_info none), e)
      (parsed s middle no_address a (subst NoDigit e m.ends_port) (omega (arith, m.short))
        (no_replica_read s middle a m.no_replica))
parsed_around s (some r) middle a b m =
    let rest : CString = b'|' ∷ (codes "REPLICA:" ++ spelled r []) in
    let e : middle ++ replica_info (some r) ≡ middle ++ rest =
      ap (λ (t : CString). middle ++ t) (replica_info-spelled r b) in
    rw (server_info-spelled s (middle ++ replica_info (some r)), e)
      (parsed s (middle ++ rest) (address r) a (subst NoDigit e m.ends_port)
        (omega (arith, length-append middle rest, length-spelled r [] b, m.short))
        (replica_read s r middle a b m.no_replica))

nothing-IsMiddle : (replica : Option StorageServerInfo) → IsReplica replica → IsMiddle [] replica
unfolding replica_info is_digit
nothing-IsMiddle none b = record { ends_port = tt; no_replica = tt; short = omega arith }
nothing-IsMiddle (some r) b = record { ends_port = refl; no_replica = tt; short = omega arith }

sentence-IsMiddle :
    (number : ℤ) (replica : Option StorageServerInfo)
    → length (show_int number) ≤ 11
    → IsMiddle (codes "|SENTENCE:" ++ show_int number) replica
unfolding is_digit
sentence-IsMiddle number replica l = record {
  ends_port = refl;
  no_replica =
      All-append _ (codes "|SENTENCE:") (show_int number)
        (refl, (refl, (refl, (refl, (refl, (refl, (refl, (refl, (refl, (refl, tt))))))))))
        (show_int-Without b'R' number (omega arith));
  short = omega (arith, length-append (codes "|SENTENCE:") (show_int number));
}

-- The client reads the addresses of a storage server and of its replica, if there is one, from two answers
-- of the name server: the one that is these two and nothing else, and that of a WRITE, which has the number
-- of the sentence between them. Each address is in dotted form, of 1 to 15 characters, with a port of at
-- most 11, and the number has at most 11 characters.
pub parse_ss_info-server_info :
    (s : StorageServerInfo) (replica : Option StorageServerInfo) (number : ℤ)
    → IsAddress s
    → IsReplica replica
    → length (show_int number) ≤ 11
    → (parse_ss_info (server_and_replica s replica) ≡ (address s, replica_address replica))
      × (parse_ss_info (sentence_info number s replica) ≡ (address s, replica_address replica))
parse_ss_info-server_info s replica number a b l = (
  parsed_around s replica [] a b (nothing-IsMiddle replica b),
  let e : sentence_info number s replica
          ≡ server_info s ++ ((codes "|SENTENCE:" ++ show_int number) ++ replica_info replica) =
        ap (λ (t : CString). server_info s ++ t)
          (sym (append_assoc (codes "|SENTENCE:") (show_int number) (replica_info replica))) in
      ap parse_ss_info e
      ∙ parsed_around s replica (codes "|SENTENCE:" ++ show_int number) a b
          (sentence-IsMiddle number replica l),
)
