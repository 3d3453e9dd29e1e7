-- ===== src/Layer1/Mesh/Payloads.antt =====
-- layer1/mesh_protocol.go: the payloads. Offsets, durations and latencies are int64 in the code: an
-- offset is one into a file in memory, whose length is below 2 ^ 63. Times and durations are numbers of nanoseconds, a float64 is
-- of the type `F`, and gob is a parameter: a coder for each type that is registered with it.
use aizo.Prelude.{ℕ, ◌≡◌, ◌<◌, String, Bool, Option, some, List, length, All}
use aizo.Prelude.Int.{ℤ}

pub record NodeState (F : Type 0) : Type 0 where
  pub id : String
  pub os : String
  pub hostname : String
  pub cpu : F
  pub memory : F
  pub disk : F
  pub uptime : ℤ
  pub online : Bool
  pub latency_ms : ℤ

pub record PingPayload : Type 0 where
  pub sender_id : String
  pub timestamp : ℕ

pub record PongPayload : Type 0 where
  pub sender_id : String
  pub timestamp : ℕ

pub record StateRequestPayload : Type 0 where
  pub request_id : String

pub record StateResponsePayload (F : Type 0) : Type 0 where
  pub request_id : String
  pub node : NodeState F

pub record CommandPayload : Type 0 where
  pub request_id : String
  pub node_id : String
  pub command : String
  pub args : List String
  pub timeout : ℤ

pub record CommandRespPayload : Type 0 where
  pub request_id : String
  pub node_id : String
  pub success : Bool
  pub output : String
  pub error : String
  pub duration : ℤ

pub record FileChunkPayload : Type 0 where
  pub transfer_id : String
  pub path : String
  pub offset : ℤ
  pub chunk_data : List ℕ
  pub final : Bool

pub record FileAckPayload : Type 0 where
  pub transfer_id : String
  pub offset : ℤ
  pub success : Bool
  pub error : String

-- `gob.Encoder.Encode` and `decodePayload` at a type.
pub record Codec (P : Type 0) : Type 0 where
  pub encode : P → Option (List ℕ)
  pub decode : List ℕ → Option P

-- The coder gives the payload some bytes, as many as the header can say, and reads them back.
pub record Encodes {P : Type 0} (c : Codec P) (p : P) : Type 0 where
  pub buf : List ℕ
  pub encoded : c.encode p ≡ some buf
  pub decoded : c.decode buf ≡ some p
  pub bytes : All (λ b. b < 256) buf
  pub nonempty : 0 < length buf
  pub small : length buf < 4294967296

pub record Gob (F : Type 0) : Type 0 where
  pub ping : Codec PingPayload
  pub pong : Codec PongPayload
  pub state_request : Codec StateRequestPayload
  pub state_response : Codec (StateResponsePayload F)
  pub command : Codec CommandPayload
  pub command_resp : Codec CommandRespPayload
  pub file_chunk : Codec FileChunkPayload
  pub file_ack : Codec FileAckPayload
