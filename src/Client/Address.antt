-- ===== src/Client/Address.antt =====
-- `parse_ss_info` of src/client/client_main.c: the addresses that the name server answers with.
pub mod RoundTrip
pub mod Spelled
pub mod Search
use network_doc.Base.{
  ℕ, zero, suc, Bool, not, Option, none, some, [], ◌∷◌, ◌==◌, if◌then◌else◌, CString, codes, ℤ, pos,
  ◌-◌,
}
use network_doc.Message.{buffer_size, strncpy}
use network_doc.Format.{scan_char_int, or_none}

-- The text behind the literal part of a format, if it matches.
unfoldable pub literal : CString → CString → Option CString
literal [] text = some text
literal (c ∷ part) [] = none
literal (c ∷ part) (d ∷ text) = if c == d then literal part text else none

-- strstr, and the literal text of the format: what stands behind the first occurrence.
unfoldable pub behind : CString → CString → Option CString
behind part [] = none
behind part (c ∷ text) =
    let rest = behind part text in
    elim (literal part (c ∷ text)) [ none ↦ rest | some found ↦ some found ]

-- The longest prefix of at most n characters that pass the test, and the rest.
unfoldable pub span_max : (ℕ → Bool) → ℕ → CString → CString × CString
span_max p zero s = ([], s)
span_max p (suc n) [] = ([], [])
span_max p (suc n) (c ∷ s) =
    let (run, rest) = span_max p n s in if p c then (c ∷ run, rest) else ([], c ∷ s)

-- An address as far as it was stored: `ip` is `none` where nothing was, and the port is then 0.
pub record Address : Type 0 where
  pub ip : Option CString
  pub port : ℤ

abbrev pub no_address : Address
no_address = record { ip = none; port = pos 0 }

abbrev pub store_port : CString → Option (ℤ × CString) → Address
store_port ip none = record { ip = some ip; port = pos 0 }
store_port ip (some (port, rest)) = record { ip = some ip; port = port }

-- "%15[^:]:%d"
unfoldable pub scan_address : CString → Address
scan_address text = elim (or_none (span_max (λ c. not (c == b':')) 15 text)) [
  | none ↦ no_address
  | some (ip, rest) ↦ store_port ip (scan_char_int b':' rest)
]

abbrev pub scanned : Option CString → Address
scanned none = no_address
scanned (some rest) = scan_address rest

abbrev pub address_behind : CString → CString → Address
address_behind part text = scanned (behind part text)

-- The primary and the replica.
unfoldable pub parse_ss_info : CString → Address × Address
parse_ss_info ss_info =
    let temp = strncpy (buffer_size - 1) ss_info in
    (address_behind (codes "SS:") temp, address_behind (codes "REPLICA:") temp)
