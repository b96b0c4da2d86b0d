-- ===== src/Policy/Hosts.antt =====
-- Host names and host patterns: `Host`, `HostPattern` and `MatchHost` of internal/policy/match.go, with
-- `ValidServerName` of internal/contract/advanced.go, on byte strings.
pub mod Wildcard
use traffic_forwarding_panel.Prelude.{
  ℕ, ◌-◌, ◌^◌, Bool, true, false, not, ◌&&◌, ◌||◌, Option, none, some, List, [], ◌∷◌, ◌++◌, length,
  all, ltb, leb, ◌==◌, if◌then◌else◌,
}
use traffic_forwarding_panel.Prelude.Fallible.{
  Fallible, ok, err, ◌>>=◌, ◌>>◌, fail_if, guard, or_err,
}
use traffic_forwarding_panel.Contract.Money.{is_digit, value}
use traffic_forwarding_panel.Policy.Path.{Bytes}
use traffic_forwarding_panel.Policy.Paths.{same_bytes}

-- The functions of strings, net, net/netip and idna that a host name goes through. `parse_addr` gives
-- the text of the unmapped address, and `to_ascii` lowers the letters first.
pub record Names : Type 0 where
  pub trim : Bytes → Bytes
  pub to_lower : Bytes → Bytes
  pub is_ip : Bytes → Bool
  pub split_host_port : Bytes → Option (Bytes × Bytes)
  pub parse_addr : Bytes → Option Bytes
  pub to_ascii : Bytes → Option Bytes

pub data Error : Type 0 where
  empty_port invalid_port invalid_bracketed invalid_name ip_wildcard : Error

-- '.', '-', '[', ']' and '*'
abbrev pub full_stop : ℕ
full_stop = 46

abbrev hyphen : ℕ
hyphen = 45

abbrev pub asterisk : ℕ
asterisk = 42

unfoldable pub starts_with : ℕ → Bytes → Bool
starts_with x [] = false
starts_with x (c ∷ s) = c == x

unfoldable pub ends_with : ℕ → Bytes → Bool
ends_with x [] = false
ends_with x (c ∷ []) = c == x
ends_with x (c ∷ d ∷ s) = ends_with x (d ∷ s)

abbrev extend : ℕ → List Bytes → List Bytes
extend c [] = (c ∷ []) ∷ []
extend c (w ∷ ws) = (c ∷ w) ∷ ws

-- `strings.Split(s, ".")`
unfoldable pub labels : Bytes → List Bytes
labels [] = [] ∷ []
labels (c ∷ s) = if c == full_stop then [] ∷ labels s else extend c (labels s)

unfoldable pub is_label_char : ℕ → Bool
is_label_char c = (leb 97 c && leb c 122) || (leb 48 c && leb c 57) || c == hyphen

unfoldable pub valid_label : Bytes → Bool
valid_label s =
    not (length s == 0)
    && leb (length s) 63
    && not (starts_with hyphen s)
    && not (ends_with hyphen s)
    && all is_label_char s

unfoldable pub valid_server_name : Names → Bytes → Bool
valid_server_name n s =
    not (length s == 0)
    && leb (length s) 253
    && same_bytes s (n.to_lower s)
    && not (n.is_ip s)
    && all valid_label (labels s)

unfoldable pub drop_last_byte : Bytes → Bytes
drop_last_byte [] = []
drop_last_byte (c ∷ []) = []
drop_last_byte (c ∷ d ∷ s) = c ∷ drop_last_byte (d ∷ s)

abbrev pub drop_first_byte : Bytes → Bytes
drop_first_byte [] = []
drop_first_byte (c ∷ s) = s

-- `strconv.Atoi` of digits; a number past its range is past 65535 too.
unfoldable pub check_port : Bytes → Fallible Error (Unit {0})
check_port p = do
  fail_if (length p == 0) empty_port
  guard (all is_digit p) invalid_port
  guard (leb 1 (value 0 p) && leb (value 0 p) 65535) invalid_port

-- The host part of a value that may have a port.
unfoldable pub without_port : Names → Bytes → Fallible Error Bytes
without_port n v = elim (n.split_host_port v) [ none ↦ ok v | some (h, p) ↦ check_port p >> ok h ]

unfoldable pub ascii_name : Names → Bytes → Fallible Error Bytes
ascii_name n v = do
  ascii ← or_err (n.to_ascii v) invalid_name
  guard (valid_server_name n ascii) invalid_name
  ok ascii

-- A host that is in brackets, an address or a name.
unfoldable pub host_name : Names → Bytes → Fallible Error Bytes
host_name n v =
    let plain = if ends_with full_stop v then drop_last_byte v else v in
    if starts_with 91 v && ends_with 93 v
    then or_err (n.parse_addr (drop_last_byte (drop_first_byte v))) invalid_bracketed
    else elim (n.parse_addr plain) [ some a ↦ ok a | none ↦ ascii_name n plain ]

unfoldable pub host : Names → Bytes → Fallible Error Bytes
host n v = do h ← without_port n (n.trim v); host_name n h

-- A pattern after its prefix "*."
unfoldable pub wildcard : Bytes → Option Bytes
wildcard [] = none
wildcard (a ∷ []) = none
wildcard (a ∷ b ∷ s) = if a == asterisk && b == full_stop then some s else none

unfoldable pub host_pattern : Names → Bytes → Fallible Error Bytes
host_pattern n v = elim (wildcard (n.trim v)) [
  | none ↦ host n (n.trim v)
  | some rest ↦ do
    h ← host n rest
    fail_if (elim (n.parse_addr h) [ none ↦ false | some a ↦ true ]) ip_wildcard
    ok (asterisk ∷ full_stop ∷ h)
]

-- `strings.HasSuffix`
unfoldable pub has_suffix : Bytes → Bytes → Bool
has_suffix [] suffix = same_bytes [] suffix
has_suffix (c ∷ s) suffix = same_bytes (c ∷ s) suffix || has_suffix s suffix

unfoldable pub match_host : Bytes → Bytes → Bool
match_host pattern h = elim (wildcard pattern) [
  | none ↦ same_bytes pattern h
  | some rest ↦ has_suffix h (full_stop ∷ rest) && ltb (length pattern - 1) (length h)
]
