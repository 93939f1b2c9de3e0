-- ===== src/Client/Address/Spelled.antt =====
-- An address as the name server writes it.
use network_doc.Base.{
  ℕ, zero, suc, ◌+◌, ◌≤◌, ◌<◌, ◌%◌, ◌/◌, ◌≡◌, refl, sym, ap, ◌∙◌, inl, inr, Bool, true, not, ◌||◌,
  Option, none, some, [], ◌∷◌, ◌++◌, arith, ltb, ◌==◌, append-nil, Bool-cases, length,
  length-append, take_all, All, All-append, CString, codes, ℤ, pos, negsuc,
}
use network_doc.Format.{is_digit, scan_char_int, show_nat, show_int, decimal}
use network_doc.Format.RoundTrip.{NoDigit, scan_int-show_int}
use network_doc.Format.Fields.{or_none-some}
use network_doc.NameServer.State.{StorageServerInfo}
use network_doc.NameServer.Servers.{replica_info}
use network_doc.Client.Address.Search.{Without, span_max-run}
use network_doc.Client.Address.{Address, no_address, scan_address}

-- A character of an address in dotted form.
abbrev pub dotted : ℕ → Bool
dotted c = is_digit c || c == b'.'

-- An address in dotted form that fits its array, and a port of at most eleven characters.
pub record IsAddress (s : StorageServerInfo) : Type 0 where
  pub ip_dotted : All (λ c. dotted c ≡ true) s.ip
  pub ip_some : 0 < length s.ip
  pub ip_fits : length s.ip ≤ 15
  pub port_fits : length (show_int s.port) ≤ 11

-- What is read of a server.
abbrev pub address : StorageServerInfo → Address
address s = record { ip = some s.ip; port = s.port }

abbrev pub replica_address : Option StorageServerInfo → Address
replica_address none = no_address
replica_address (some s) = address s

abbrev pub IsReplica : Option StorageServerInfo → Type 0
IsReplica none = Unit
IsReplica (some s) = IsAddress s

no_colon : (ip : CString) → All (λ c. dotted c ≡ true) ip → All (λ c. not (c == b':') ≡ true) ip
unfolding is_digit
no_colon [] h = tt
no_colon (c ∷ ip) h = (ground (arith, h.0), no_colon ip h.1)

dotted-Without : (k : ℕ) (ip : CString) → 57 < k → All (λ c. dotted c ≡ true) ip → Without k ip
unfolding is_digit
dotted-Without k [] l h = tt
dotted-Without k (c ∷ ip) l h = (ground (arith, h.0), dotted-Without k ip l h.1)

decimal-Without :
    (k fuel n : ℕ) (out : CString) → 57 < k → Without k out → Without k (decimal fuel n out)
unfolding decimal
decimal-Without k zero n out l h = h
decimal-Without k (suc fuel) n out l h = elim (Bool-cases (ltb n 10)) [
  | inl e ↦ rw e (ground arith, h)
  | inr e ↦ rw e (decimal-Without k fuel (n / 10) ((b'0' + n % 10) ∷ out) l (ground arith, h))
]

pub show_int-Without : (k : ℕ) (z : ℤ) → 57 < k → Without k (show_int z)
unfolding show_int show_nat
show_int-Without k (pos n) l = decimal-Without k (n + 1) n [] l tt
show_int-Without k (negsuc n) l = (ground arith, decimal-Without k (suc n + 1) (suc n) [] l tt)

-- "ip:port", and what follows.
abbrev pub spelled : StorageServerInfo → CString → CString
spelled s rest = s.ip ++ (58 ∷ (show_int s.port ++ rest))

pub scan_address-spelled :
    (s : StorageServerInfo) (rest : CString)
    → IsAddress s
    → NoDigit rest
    → scan_address (spelled s rest) ≡ address s
unfolding scan_address scan_char_int
scan_address-spelled s rest a h =
    rw
      (
        span_max-run (λ c. not (c == b':')) 15 s.ip 58 (show_int s.port ++ rest)
            (no_colon s.ip a.ip_dotted) a.ip_fits refl,
        or_none-some s.ip (58 ∷ (show_int s.port ++ rest)) a.ip_some,
        scan_address,
        scan_int-show_int s.port rest h,
        scan_char_int,
      )
      refl

pub replica_info-spelled :
    (r : StorageServerInfo)
    → IsAddress r
    → replica_info (some r) ≡ b'|' ∷ (codes "REPLICA:" ++ spelled r [])
unfolding replica_info
replica_info-spelled r a =
    take_all 127 (codes "|REPLICA:" ++ (r.ip ++ (58 ∷ show_int r.port)))
      (omega (arith, length-append r.ip (58 ∷ show_int r.port), a.ip_fits, a.port_fits))
    ∙ ap (λ port. codes "|REPLICA:" ++ (r.ip ++ (58 ∷ port))) (sym (append-nil (show_int r.port)))

pub length-spelled :
    (s : StorageServerInfo) (rest : CString)
    → IsAddress s
    → length (spelled s rest) ≤ 27 + length rest
length-spelled s rest a = omega (
  arith,
  length-append s.ip (58 ∷ (show_int s.port ++ rest)),
  length-append (show_int s.port) rest,
  a.ip_fits,
  a.port_fits,
)

pub spelled-Without :
    (s : StorageServerInfo) (rest : CString)
    → IsAddress s
    → Without b'R' rest
    → Without b'R' (spelled s rest)
spelled-Without s rest a h =
    All-append _ s.ip (58 ∷ (show_int s.port ++ rest))
      (dotted-Without b'R' s.ip (omega arith) a.ip_dotted)
      (refl, All-append _ (show_int s.port) rest (show_int-Without b'R' s.port (omega arith)) h)
