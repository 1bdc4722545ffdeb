-- ===== src/Net/Sockaddr/Host.antt =====
-- src/net/sockaddr/get_addr_info.rs: how a host and a port are taken from the arguments, and their
-- wide strings. A text is a list of code points.
use wae.Common.{
  ℕ, zero, suc, ◌+◌, ◌-◌, ◌*◌, ◌/◌, ◌%◌, ◌<◌, ◌≡◌, refl, Bool, true, not, ◌&&◌, Option, none, some,
  List, [], ◌∷◌, ◌++◌, ◌==◌, ltb, if◌then◌else◌, arith, All,
}

abbrev pub Text : Type 0
Text = List ℕ

-- `str::split(':')`, as the first piece and the others.
unfoldable pub split_colon : Text → Text × List Text
split_colon [] = ([], [])
split_colon (c ∷ s) =
    let (piece, pieces) = split_colon s in
    if c == b':' then ([], piece ∷ pieces) else (c ∷ piece, pieces)

-- `encode_wide`: a code point beyond 0xffff is two units.
unfoldable pub encode_wide : Text → List ℕ
encode_wide [] = []
encode_wide (c ∷ s) =
    let rest = encode_wide s in
    if ltb c 0x10000
    then c ∷ rest
    else (0xd800 + (c - 0x10000) / 0x400) ∷ (0xdc00 + (c - 0x10000) % 0x400) ∷ rest

-- `to_wstr`
unfoldable pub to_wstr : Text → List ℕ
unfolding encode_wide
to_wstr s = encode_wide s ++ 0 ∷ []

-- `u16::to_string`, at most five digits: `fuel` digits from the last one on, before `rest`.
unfoldable pub digits : ℕ → ℕ → Text → Text
digits zero n rest = rest
digits (suc fuel) n rest =
    let more = digits fuel (n / 10) ((b'0' + n % 10) ∷ rest) in
    if ltb n 10 then (b'0' + n) ∷ rest else more

unfoldable pub port_to_string : ℕ → Text
unfolding digits
port_to_string n = digits 5 n []

abbrev pub first : List Text → Option Text
first [] = none
first (t ∷ ts) = some t

-- The host and port that `get_addr_info` looks up, before `to_wstr`.
unfoldable pub host_and_port : Text → Option ℕ → Text × Option Text
unfolding split_colon port_to_string
host_and_port host (some p) = (host, some (port_to_string p))
host_and_port host none = let (h, pieces) = split_colon host in (h, first pieces)

-- What is handed to `GetAddrInfoExW`.
unfoldable pub wide_host_and_port : Text → Option ℕ → List ℕ × Option (List ℕ)
unfolding host_and_port to_wstr
wide_host_and_port host port =
    let (h, p) = host_and_port host port in
    (to_wstr h, elim p [ none ↦ none | some s ↦ some (to_wstr s) ])

-- No colon in a text.
abbrev pub is_plain : Text → Bool
is_plain [] = true
is_plain (c ∷ s) = not (c == b':') && is_plain s

split_plain : (s : Text) → is_plain s ≡ true → split_colon s ≡ (s, [])
unfolding split_colon
split_plain [] h = refl
split_plain (c ∷ s) h = ground (arith, split_plain s)

split_at_colon :
    (host rest : Text)
    → is_plain host ≡ true
    → split_colon (host ++ b':' ∷ rest) ≡ (host, (split_colon rest).0 ∷ (split_colon rest).1)
unfolding split_colon
split_at_colon [] rest h = refl
split_at_colon (c ∷ host) rest h = ground (arith, split_at_colon host rest)

-- "host:port" is taken apart into its host and its port.
pub host_and_port_pair :
    (host port : Text)
    → is_plain host ≡ true
    → is_plain port ≡ true
    → host_and_port (host ++ b':' ∷ port) none ≡ (host, some port)
unfolding host_and_port
host_and_port_pair host port h p = ground (arith, split_at_colon host port h, split_plain port p)

-- Without a colon there is a host and no port.
pub host_and_port_plain :
    (host : Text) → is_plain host ≡ true → host_and_port host none ≡ (host, none)
unfolding host_and_port
host_and_port_plain host h = ground (arith, split_plain host h)

-- What follows a second colon is dropped without an error.
pub host_and_port_drops :
    (host port rest : Text)
    → is_plain host ≡ true
    → is_plain port ≡ true
    → host_and_port (host ++ b':' ∷ (port ++ b':' ∷ rest)) none ≡ (host, some port)
unfolding host_and_port
host_and_port_drops host port rest h p =
    ground (arith, split_at_colon host (port ++ b':' ∷ rest) h, split_at_colon port rest p)

-- The value of a decimal text, from a value on.
abbrev pub decimal : ℕ → Text → ℕ
decimal acc [] = acc
decimal acc (c ∷ s) = decimal (acc * 10 + (c - b'0')) s

-- A port is printed so that reading its digits gives it back.
pub decimal-port_to_string : (p : ℕ) → p < 65536 → decimal 0 (port_to_string p) ≡ p
unfolding port_to_string
decimal-port_to_string p h = ground arith

plain-port_to_string : (p : ℕ) → p < 65536 → is_plain (port_to_string p) ≡ true
unfolding port_to_string
plain-port_to_string p h = ground arith

-- If a host has no colon, a port that stands behind it in one text is looked up like the same port given
-- as a number: the host is the same, and the service is the decimal text of the port.
pub host_and_port_agrees :
    (host : Text) (p : ℕ)
    → is_plain host ≡ true
    → p < 65536
    → (service : Text) × (host_and_port (host ++ b':' ∷ port_to_string p) none
        ≡ (host, some service))
      × (host_and_port host (some p) ≡ (host, some service))
      × (decimal 0 service ≡ p)
unfolding host_and_port
host_and_port_agrees host p h lt = (
  port_to_string p,
  host_and_port_pair host (port_to_string p) h (plain-port_to_string p lt),
  refl,
  decimal-port_to_string p lt,
)

-- The wide string of a text without NUL ends at its only zero: no earlier unit is 0.
pub to_wstr-terminated :
    (s : Text)
    → All (λ c. 0 < c) s
    → (units : List ℕ) × (to_wstr s ≡ units ++ 0 ∷ []) × All (λ u. 0 < u) units
unfolding to_wstr
to_wstr-terminated s h = (encode_wide s, refl, nonzero s h)
  where
    nonzero : (t : Text) → All (λ c. 0 < c) t → All (λ u. 0 < u) (encode_wide t)
    nonzero [] k = tt
    nonzero (c ∷ t) k = ground (arith, nonzero t k.1)
