-- ===== src/InetAddress/Resolve.antt =====
-- InetAddress::resolve, over every list of candidates and every answer of the sockets.
use mutiplex.Base.{
  ◌++◌, ◌⊎◌, ℕ, ◌≡◌, refl, ap, Bool, true, false, ◌==◌, ==_refl, if◌then◌else◌, List, [], ◌∷◌,
  Option, none, some, inl, inr, Bool-cases,
}
use mutiplex.InetAddress.{
  InetAddress, new, Candidate, FdEvent, opened, closed, try_connect, resolve, accept_candidate,
  try_one,
}

abbrev pub without : ℕ → List ℕ → List ℕ
without fd [] = []
without fd (x ∷ xs) = if x == fd then xs else x ∷ without fd xs

-- The descriptors that are open after some events.
pub open_after : List FdEvent → List ℕ → List ℕ
open_after [] fds = fds
open_after (opened fd ∷ events) fds = open_after events (fd ∷ fds)
open_after (closed fd ∷ events) fds = open_after events (without fd fds)

-- The result and the variable `addr` after the call.
abbrev pub expected : Option Candidate → InetAddress → Bool × InetAddress
expected none addr = (false, addr)
expected (some c) addr = (c.is_inet, if c.is_inet then new c.ip c.port else addr)

-- A candidate that gets no socket, or whose socket does not connect.
abbrev pub Fails : Candidate → Type 0
Fails c = (c.socket ≡ none) ⊎ (c.connects ≡ false)

abbrev pub AllFail : List Candidate → Type 0
AllFail [] = Unit {0}
AllFail (c ∷ rest) = Fails c × AllFail rest

-- Which candidate is found, if any: the first one that connects.
pub data Found (candidates : List Candidate) : Option Candidate → Type 0 where
  nobody : AllFail candidates → Found candidates none
  somebody :
      (before after : List Candidate) (c : Candidate) (fd : ℕ)
      → candidates ≡ before ++ c ∷ after
      → AllFail before
      → c.socket ≡ some fd
      → c.connects ≡ true
      → Found candidates (some c)

Found-cons :
    {candidates : List Candidate} {o : Option Candidate} (c : Candidate)
    → Fails c
    → Found candidates o
    → Found (c ∷ candidates) o
Found-cons c f (nobody all) = nobody (f, all)
Found-cons c f (somebody before after d fd e all s t) =
    somebody (c ∷ before) after d fd (ap (◌∷◌ c) e) (f, all) s t

try_one-Found :
    (socket : Option ℕ) (connects : Bool) (c : Candidate) (candidates : List Candidate)
    (rest : Option Candidate × List FdEvent)
    → c.socket ≡ socket
    → c.connects ≡ connects
    → Found candidates rest.0
    → Found (c ∷ candidates) (try_one socket connects c rest).0
unfolding try_one
try_one-Found none connects c candidates rest e t found = Found-cons c (inl e) found
try_one-Found (some fd) true c candidates rest e t found = somebody [] candidates c fd refl tt e t
try_one-Found (some fd) false c candidates rest e t found = Found-cons c (inr t) found

try_connect-Found : (candidates : List Candidate) → Found candidates (try_connect candidates).0
unfolding try_connect
try_connect-Found [] = nobody tt
try_connect-Found (c ∷ rest) =
    try_one-Found c.socket c.connects c rest (try_connect rest) refl refl (try_connect-Found rest)

try_one_closes :
    (socket : Option ℕ) (connects : Bool) (c : Candidate) (rest : Option Candidate × List FdEvent)
    → open_after rest.1 [] ≡ []
    → open_after (try_one socket connects c rest).1 [] ≡ []
unfolding try_one open_after
try_one_closes none connects c rest e = e
try_one_closes (some fd) true c rest e = rw (open_after, ==_refl fd) refl
try_one_closes (some fd) false c rest e = rw (open_after, ==_refl fd) e

try_connect_closes : (candidates : List Candidate) → open_after (try_connect candidates).1 [] ≡ []
unfolding try_connect open_after
try_connect_closes [] = refl
try_connect_closes (c ∷ rest) =
    try_one_closes c.socket c.connects c (try_connect rest) (try_connect_closes rest)

accepted : (o : Option Candidate) (addr : InetAddress) → accept_candidate o addr ≡ expected o addr
unfolding accept_candidate
accepted none addr = refl
accepted (some c) addr = elim (Bool-cases c.is_inet) [ inl y ↦ cc | inr n ↦ cc ]

-- For every list of candidates and all answers of ::socket and ::connect: a candidate is found just
-- if one connects, and it is the first that does; the call succeeds just if that one is an IPv4
-- address, which the variable then holds, and leaves the variable alone otherwise; and no descriptor
-- stays open.
pub resolve-first :
    (candidates : List Candidate) (addr : InetAddress)
    → (o : Option Candidate) × Found candidates o
      × ((resolve (some candidates) addr).0 ≡ expected o addr)
      × (open_after (resolve (some candidates) addr).1 [] ≡ [])
unfolding resolve accept_candidate
resolve-first candidates addr = (
  (try_connect candidates).0,
  try_connect-Found candidates,
  accepted (try_connect candidates).0 addr,
  try_connect_closes candidates,
)
