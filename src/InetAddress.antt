-- ===== src/InetAddress.antt =====
-- mutiplex/InetAddress.h and src/InetAddress.cpp: an IPv4 address and port, both in network order.
-- The functions of libc that it calls are the fields of `Libc`.
pub mod Laws
pub mod Text
pub mod Resolve
mod Tests
use mutiplex.Base.{
  ℕ, suc, ◌+◌, ◌-◌, ◌%◌, ◌^◌, Bool, true, false, if◌then◌else◌, ◌==◌, Result, ok, err, exception,
  List, [], ◌∷◌, ◌++◌, take, drop, Option, none, some,
}
use mutiplex.Base.Int.{ℤ, pos, negsuc}
use mutiplex.Base.Memory.{Bytes}

-- `inet_pton` answers `none` where the call does not return 1; `inet_ntop` and `decimal`, which is
-- what "%d" prints, answer the characters before the terminator.
pub record Libc : Type 0 where
  pub inet_pton : Bytes → Option ℕ
  pub inet_ntop : ℕ → Bytes
  pub htons : ℕ → ℕ
  pub ntohs : ℕ → ℕ
  pub atoi : Bytes → ℤ
  pub decimal : ℤ → Bytes

pub record InetAddress : Type 0 where
  pub port : ℕ
  pub ip : ℕ

abbrev pub new_empty : InetAddress
new_empty = record { port = 0; ip = 0 }

abbrev pub new : ℕ → ℕ → InetAddress
new ip port = record { port = port; ip = ip }

abbrev pub colon : ℕ
colon = 58

-- addr.find(c)
pub find : Bytes → ℕ → Option ℕ
find [] c = none
find (x ∷ xs) c =
    if x == c then some 0 else elim (find xs c) [ none ↦ none | some p ↦ some (suc p) ]

-- static_cast<uint16_t>
abbrev pub u16 : ℤ → ℕ
u16 (pos n) = n % 2 ^ 16
u16 (negsuc n) = 2 ^ 16 - 1 - n % 2 ^ 16

-- A result of getaddrinfo, and what ::socket and ::connect answer for it.
pub record Candidate : Type 0 where
  pub is_inet : Bool
  pub ip : ℕ
  pub port : ℕ
  pub socket : Option ℕ
  pub connects : Bool

pub data FdEvent : Type 0 where
  opened : ℕ → FdEvent
  closed : ℕ → FdEvent

-- The loop's body for a candidate, by the answers of ::socket and ::connect; `rest` is what the
-- candidates after it give.
try_one :
    Option ℕ → Bool → Candidate → Option Candidate × List FdEvent → Option Candidate × List FdEvent
try_one none connects c rest = rest
try_one (some fd) true c rest = (some c, opened fd ∷ closed fd ∷ [])
try_one (some fd) false c (found, events) = (found, opened fd ∷ closed fd ∷ events)

pub try_connect : List Candidate → Option Candidate × List FdEvent
unfolding try_one
try_connect [] = (none, [])
try_connect (c ∷ rest) = try_one c.socket c.connects c (try_connect rest)

-- `rp && rp->ai_family == AF_INET`
accept_candidate : Option Candidate → InetAddress → Bool × InetAddress
accept_candidate none addr = (false, addr)
accept_candidate (some c) addr = if c.is_inet then (true, new c.ip c.port) else (false, addr)

-- `none` is an error of getaddrinfo; the sockets that were used come last.
pub resolve : Option (List Candidate) → InetAddress → (Bool × InetAddress) × List FdEvent
unfolding try_connect accept_candidate
resolve none addr = ((false, addr), [])
resolve (some candidates) addr =
    let (found, events) = try_connect candidates in (accept_candidate found addr, events)

module _ (libc : Libc) where
  open libc use {inet_pton, inet_ntop, htons, ntohs, atoi, decimal}

  -- The address from what inet_pton and atoi answer.
  made : Option ℕ → ℤ → Result InetAddress
  made none port = err exception
  made (some ip) port = ok (new ip (htons (u16 port)))

  parse_at : Bytes → Option ℕ → Result InetAddress
  unfolding made
  parse_at addr none = err exception
  parse_at addr (some p) = made (inet_pton (take p addr)) (atoi (drop (p + 1) addr))

  pub parse : Bytes → Result InetAddress
  unfolding find parse_at
  parse addr = parse_at addr (find addr colon)

  pub host_port : InetAddress → ℕ
  host_port a = ntohs a.port

  pub ip_str : InetAddress → Bytes
  ip_str a = inet_ntop a.ip

  -- snprintf(str, 32, "%s:%d", …) keeps 31 characters.
  pub to_string : InetAddress → Bytes
  unfolding host_port
  to_string a = take 31 (inet_ntop a.ip ++ colon ∷ decimal (pos (host_port a)))
