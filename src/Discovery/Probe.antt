-- ===== src/Discovery/Probe.antt =====
-- lang/python/frenetic/examples/discovery/probe.py: the header of a probe, `struct` with "!QH". A number
-- that does not fit is a struct.error, which stands here as a ValueError.
use frenetic.Base.{
  ℕ, ◌+◌, ◌*◌, ◌/◌, ◌%◌, ◌^◌, ◌<◌, Bool, ◌&&◌, ◌≡◌, refl, [], ◌∷◌, ◌++◌, Result, ok, err,
  value_error, arith, ltb, lt→ltb, ◌==◌, if◌then◌else◌,
}
use frenetic.Base.Text.{Text}

pub record ProbeData : Type 0 where
  pub src_switch : ℕ
  pub src_port : ℕ

abbrev pub probocol : ℕ
probocol = 0x808

-- The byte at a place of a number.
abbrev byte : ℕ → ℕ → ℕ
byte n k = n / 256 ^ k % 256

abbrev bytes_of : ProbeData → Text
bytes_of p =
    byte p.src_switch 7
    ∷ byte p.src_switch 6
    ∷ byte p.src_switch 5
    ∷ byte p.src_switch 4
    ∷ byte p.src_switch 3
    ∷ byte p.src_switch 2
    ∷ byte p.src_switch 1
    ∷ byte p.src_switch 0
    ∷ byte p.src_port 1
    ∷ byte p.src_port 0
    ∷ []

-- struct.pack("!QH", ...)
unfoldable pub serialize : ProbeData → Result Text
serialize p =
    if ltb p.src_switch (2 ^ 64) && ltb p.src_port (2 ^ 16)
    then ok (bytes_of p)
    else err value_error

abbrev word : ℕ → ℕ → ℕ → ℕ → ℕ
word a b c d = ((a * 256 + b) * 256 + c) * 256 + d

-- struct.unpack_from, and the rest of the buffer
unfoldable pub parser : Text → Result (ProbeData × Text)
parser (a ∷ b ∷ c ∷ d ∷ e ∷ f ∷ g ∷ h ∷ i ∷ j ∷ rest) =
    ok (record { src_switch = word a b c d * 2 ^ 32 + word e f g h; src_port = i * 256 + j }, rest)
parser _ = err value_error

-- ProbeData.__eq__, between two probes
unfoldable pub probe_eq : ProbeData → ProbeData → Bool
probe_eq a b = a.src_switch == b.src_switch && a.src_port == b.src_port

-- A probe whose switch fits 64 bits and whose port fits 16 is serialized, and the parser reads it back,
-- whatever follows it.
pub parser-serialize :
    (p : ProbeData) (rest : Text)
    → p.src_switch < 2 ^ 64
    → p.src_port < 2 ^ 16
    → (bytes : Text) × (serialize p ≡ ok bytes) × (parser (bytes ++ rest) ≡ ok (p, rest))
unfolding serialize parser
parser-serialize p rest h k = (
  bytes_of p,
  rw (lt→ltb p.src_switch (2 ^ 64) h) (rw (lt→ltb p.src_port (2 ^ 16) k) refl),
  ground arith,
)
