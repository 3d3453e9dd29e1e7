-- ===== src/Layer1/Mesh/Protocol.antt =====
-- layer1/mesh_protocol.go: the header, `writeMessage` and `readMessage`. A byte is a number, and a
-- slice of bytes a list. A connection is an interface, since only its environment knows which write
-- fails. gob is outside the repository: `encode` is a parameter.
pub mod Framing
pub mod Acceptance
pub mod Sequence
use aizo.Prelude.{
  ℕ, ◌+◌, ◌*◌, ◌/◌, ◌%◌, String, Bool, true, false, ◌&&◌, Option, none, some, List, [], ◌∷◌, ◌++◌,
  length, take, drop, ltb, if◌then◌else◌, ◌==◌, nat_eq,
}

pub record Magic : Type 0 where
  pub b0 : ℕ
  pub b1 : ℕ
  pub b2 : ℕ
  pub b3 : ℕ

abbrev pub mesh_magic : Magic
mesh_magic = record { b0 = 0xA1; b1 = 0xAA; b2 = 0xBB; b3 = 0xCC }

abbrev pub protocol_version : ℕ
protocol_version = 1

pub data MsgType : Type 0 where
  msg_ping msg_pong msg_state_request msg_state_response msg_command msg_command_resp msg_file_chunk
        msg_file_ack :
      MsgType

unfoldable pub msg_code : MsgType → ℕ
msg_code msg_ping = 0x01
msg_code msg_pong = 0x02
msg_code msg_state_request = 0x03
msg_code msg_state_response = 0x04
msg_code msg_command = 0x05
msg_code msg_command_resp = 0x06
msg_code msg_file_chunk = 0x07
msg_code msg_file_ack = 0x08

pub record MeshHeader : Type 0 where
  pub magic : Magic
  pub version : ℕ
  pub msg_type : ℕ
  pub payload_len : ℕ

-- `binary.Write(conn, binary.BigEndian, hdr)`
unfoldable pub put_header : MeshHeader → List ℕ
put_header h =
    h.magic.b0
    ∷ h.magic.b1
    ∷ h.magic.b2
    ∷ h.magic.b3
    ∷ h.version
    ∷ h.msg_type
    ∷ (h.payload_len / 16777216 % 256)
    ∷ (h.payload_len / 65536 % 256)
    ∷ (h.payload_len / 256 % 256)
    ∷ (h.payload_len % 256)
    ∷ []

-- `binary.Read(conn, binary.BigEndian, &hdr)`: the header and what follows it, when ten bytes come.
unfoldable pub get_header : List ℕ → Option (MeshHeader × List ℕ)
get_header (m0 ∷ m1 ∷ m2 ∷ m3 ∷ v ∷ t ∷ l3 ∷ l2 ∷ l1 ∷ l0 ∷ rest) = some (
  record {
    magic = record { b0 = m0; b1 = m1; b2 = m2; b3 = m3 };
    version = v;
    msg_type = t;
    payload_len = l3 * 16777216 + l2 * 65536 + l1 * 256 + l0;
  },
  rest,
)
get_header _ = none

-- What the code uses of a `net.Conn`: a write says whether all of the bytes went out, `unread` are
-- the bytes that a reader gets, and `left` drops those that were read.
pub record NetConn (W : Type 0) : Type 0 where
  pub write : W → List ℕ → W × Bool
  pub unread : W → List ℕ
  pub left : W → List ℕ → W

pub data WriteError : Type 0 where
  encode_payload write_header write_payload : WriteError

-- The header of a payload. `uint32(buf.Len())` keeps the low 32 bits of the length.
abbrev pub header_of : ℕ → List ℕ → MeshHeader
header_of t buf = record {
  magic = mesh_magic;
  version = protocol_version;
  msg_type = t;
  payload_len = length buf % 4294967296;
}

unfoldable pub write_message {ℓ} :
    {W : Type 0} {P : Type ℓ}
    → NetConn W
    → (P → Option (List ℕ))
    → W
    → ℕ
    → P
    → W × Option WriteError
write_message net encode c t payload = elim (encode payload) [
  | none ↦ (c, some encode_payload)
  | some buf ↦
      let (c1, header_ok) = net.write c (put_header (header_of t buf)) in
      let (c2, payload_ok) = net.write c1 buf in
      if header_ok
      then (if payload_ok then (c2, none) else (c2, some write_payload))
      else (c1, some write_header)
]

pub data ReadError : Type 0 where
  read_header invalid_magic read_payload : ReadError
  version_mismatch : ℕ → ReadError

-- The type, the payload and the bytes that are still to be read, or the error.
pub data Received : Type 0 where
  message : ℕ → List ℕ → List ℕ → Received
  failed : ReadError → Received

abbrev same_magic : Magic → Magic → Bool
same_magic a b = (a.b0 == b.b0) && (a.b1 == b.b1) && (a.b2 == b.b2) && (a.b3 == b.b3)

unfoldable pub read_body : MeshHeader → List ℕ → Received
read_body h rest =
    if h.payload_len == 0
    then message h.msg_type [] rest
    else (if ltb (length rest) h.payload_len
        then failed read_payload
        else message h.msg_type (take h.payload_len rest) (drop h.payload_len rest))

unfoldable pub read_parsed : Option (MeshHeader × List ℕ) → Received
unfolding read_body
read_parsed none = failed read_header
read_parsed (some (h, rest)) =
    if same_magic h.magic mesh_magic
    then (if h.version == protocol_version
        then read_body h rest
        else failed (version_mismatch h.version))
    else failed invalid_magic

abbrev pub read_message : List ℕ → Received
read_message bs = read_parsed (get_header bs)
