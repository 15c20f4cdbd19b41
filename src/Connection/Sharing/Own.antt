-- ===== src/Connection/Sharing/Own.antt =====
-- What a change of `connections_` leaves of the connection that makes it.
use mutiplex.Base.{
  ℕ, ◌≡◌, refl, ap, ◌∙◌, inl, inr, Bool-cases, true, false, ◌==◌, ==_refl, ◌&&◌, if◌then◌else◌,
  List, [], Option, none, some, arith,
}
use mutiplex.Base.Memory.{Bytes}
use mutiplex.Connection.Context.{World}
use mutiplex.Connection.Tasks.{release}
use mutiplex.Connection.Sharing.{
  Posted, Loop, put_under, owns, put_back, displace_at, displace, arrive, finish,
}

-- A task behind which the entry under the descriptor is still there.
pub finish-listed :
    (s : Loop) (i : ℕ) (v : World) (xs : Bytes) (queue : List Posted)
    → v.listed ≡ true
    → finish s i v xs queue
      ≡ put_back s i
          (release (record v { listed = owns (s.entries v.conn.fd) i }))
          xs
          queue
          s.entries
finish-listed s i v xs queue e =
    ap
      (λ t.
        displace
          (put_back s i (release (record v { listed = t && owns (s.entries v.conn.fd) i })) xs queue
            (if t then s.entries else put_under none v.conn.fd s.entries))
          i (if t then none else s.entries v.conn.fd))
      e

abbrev Keeps : ℕ → Loop → Loop → Type 0
Keeps i s s' = (s'.connections i ≡ s.connections i) × (s'.handed i ≡ s.handed i)

other : (i j : ℕ) → (j == i) ≡ false → (i == j) ≡ false
other i j n = ground arith

displace_at-own :
    (s : Loop) (i j : ℕ) (o : Option World) → (j == i) ≡ false → Keeps i s (displace_at s j o)
displace_at-own s i j none n = (refl, refl)
displace_at-own s i j (some u) n = rw (other i j n) (refl, refl)

displace-own : (s : Loop) (i : ℕ) (o : Option ℕ) → Keeps i s (displace s i o)
displace-own s i none = (refl, refl)
displace-own s i (some j) = elim (Bool-cases (j == i)) [
  | inl y ↦ rw y (refl, refl)
  | inr n ↦ rw n (displace_at-own s i j (s.connections j) n)
]

-- A connection that arrives is there, and has been handed nothing.
pub arrive-own :
    (s : Loop) (i : ℕ) (v : World) (queue : List Posted)
    → ((arrive s i v queue).connections i ≡ some v) × ((arrive s i v queue).handed i ≡ [])
arrive-own s i v queue =
    let t = put_back s i v [] queue (put_under (some i) v.conn.fd s.entries) in
    let (there, none_yet) = displace-own t i (s.entries v.conn.fd) in
    (
      there ∙ ap (λ b. if b then some v else s.connections i) (==_refl i),
      none_yet ∙ ap (λ b. if b then [] else s.handed i) (==_refl i),
    )
