-- ===== src/InetAddress/Laws.antt =====
-- What the manuals of the libc functions promise.
use mutiplex.Base.{ℕ, ◌^◌, ◌≤◌, ◌<◌, ◌≡◌, none, some, length}
use mutiplex.Base.Int.{pos}
use mutiplex.InetAddress.{Libc, InetAddress, find, colon}

-- The numeric functions are inverse to the printing ones; the text of an address has at most 15
-- characters and no colon, that of a port at most 5; the byte order is turned round twice.
pub record Laws (libc : Libc) : Type 0 where
  pub pton-ntop : (ip : ℕ) → ip < 2 ^ 32 → libc.inet_pton (libc.inet_ntop ip) ≡ some ip
  pub find-ntop : (ip : ℕ) → ip < 2 ^ 32 → find (libc.inet_ntop ip) colon ≡ none
  pub length-ntop : (ip : ℕ) → ip < 2 ^ 32 → length (libc.inet_ntop ip) ≤ 15
  pub htons-ntohs : (port : ℕ) → port < 2 ^ 16 → libc.htons (libc.ntohs port) ≡ port
  pub ntohs-lt : (port : ℕ) → port < 2 ^ 16 → libc.ntohs port < 2 ^ 16
  pub atoi-decimal : (n : ℕ) → n < 2 ^ 31 → libc.atoi (libc.decimal (pos n)) ≡ pos n
  pub length-decimal : (n : ℕ) → n < 2 ^ 16 → length (libc.decimal (pos n)) ≤ 5

-- The values of a `uint32_t` and a `uint16_t`.
abbrev pub IsAddress : InetAddress → Type 0
IsAddress a = (a.ip < 2 ^ 32) × (a.port < 2 ^ 16)
