-- ===== src/Layer1/Mesh/Protocol/Framing.antt =====
-- What one side writes the other side reads (layer1/mesh_protocol.go).
use aizo.Prelude.{
  ℕ, ◌+◌, ◌*◌, ◌/◌, ◌%◌, ◌<◌, ◌≡◌, refl, ap, ◌∙◌, Option, none, some, List, ◌++◌, length,
  length-append, take-append, drop-append, append_assoc, nat_eq, arith, true, append_assoc,
  take-append, drop-append,
}
use aizo.Layer1.Mesh.Protocol.{
  NetConn, put_header, get_header, header_of, read_body, read_message, read_parsed, write_message,
  message,
}

abbrev pub IsByte : ℕ → Type 0
IsByte b = b < 256

-- What goes over the wire for a payload.
unfoldable pub frame : ℕ → List ℕ → List ℕ
frame t buf = put_header (header_of t buf) ++ buf

-- Four bytes, the highest first, hold a number below 2 ^ 32.
big_endian :
    (n : ℕ)
    → n < 4294967296
    → n / 16777216 % 256 * 16777216 + n / 65536 % 256 * 65536 + n / 256 % 256 * 256 + n % 256 ≡ n
big_endian n h = omega arith

pub get_header-frame :
    (t : ℕ) (buf rest : List ℕ)
    → get_header (put_header (header_of t buf) ++ rest) ≡ some (header_of t buf, rest)
unfolding get_header put_header
get_header-frame t buf rest = rw (big_endian (length buf % 4294967296) (omega arith))

pub read_frame :
    (t : ℕ) (buf rest : List ℕ)
    → read_message (put_header (header_of t buf) ++ rest) ≡ read_body (header_of t buf) rest
unfolding read_parsed native.Mathlib.Decide.ℕ_discrete
read_frame t buf rest = ap read_parsed (get_header-frame t buf rest)

-- A payload below 2 ^ 32 bytes comes back, and what follows it is left for the next read.
pub read_message-frame :
    (t : ℕ) (buf rest : List ℕ)
    → length buf < 4294967296
    → read_message (frame t buf ++ rest) ≡ message t buf rest
unfolding frame read_body native.Mathlib.Decide.ℕ_discrete
read_message-frame t buf rest h =
    ap read_message (append_assoc (put_header (header_of t buf)) buf rest)
    ∙ read_frame t buf (buf ++ rest)
    ∙ (ground (
      arith,
      take-append (length buf % 4294967296) buf rest,
      drop-append (length buf % 4294967296) buf rest,
      length-append buf rest,
    ))

-- When no write fails, a message is its header and then its payload.
pub write_message-whole {ℓ} :
    {W : Type 0} {P : Type ℓ} (net : NetConn W) (encode : P → Option (List ℕ)) (c : W) (t : ℕ)
    (p : P) (buf : List ℕ)
    → encode p ≡ some buf
    → ((w : W) (bs : List ℕ) → (net.write w bs).1 ≡ true)
    → write_message net encode c t p
      ≡ ((net.write (net.write c (put_header (header_of t buf))).0 buf).0, none)
unfolding write_message
write_message-whole net encode c t p buf e ok =
    rw
      (
        e,
        write_message,
        ok c (put_header (header_of t buf)),
        ok (net.write c (put_header (header_of t buf))).0 buf,
      )
      refl
