-- ===== src/Layer1/Mesh/Transfer.antt =====
-- layer1/mesh_adapter.go: `SendFile`, from the contents of the file on. Deadlines are not modelled: a
-- peer that is too late is one whose answer is not read. `contains` is `strings.Contains`.
pub mod Link
pub mod Delivery
use aizo.Prelude.{
  ℕ, zero, suc, ◌+◌, ◌-◌, String, Bool, true, false, not, ◌&&◌, Option, none, some, List, [], ◌∷◌,
  length, take, drop, ltb, if◌then◌else◌, ◌==◌, nat_eq, string_eq,
}
use aizo.Prelude.Int.{pos}
use aizo.Layer1.Mesh.Protocol.{
  NetConn, ReadError, WriteError, msg_code, msg_file_chunk, msg_file_ack, write_message,
  read_message, Received, message, failed,
}
use aizo.Layer1.Mesh.Payloads.{FileChunkPayload, FileAckPayload, Codec, Gob}

abbrev pub chunk_size : ℕ
chunk_size = 65536

pub data SendError : Type 0 where
  read_file : SendError
  send_chunk : String → WriteError → SendError
  no_ack : String → SendError
  chunk_rejected : String → SendError

-- `stuck` is no outcome of the code: the fuel of the loop has run out.
pub data Outcome : Type 0 where
  done stuck : Outcome
  stopped : SendError → Outcome

abbrev pub chunk_at : String → String → List ℕ → ℕ → FileChunkPayload
chunk_at path transfer_id bs offset =
    let end = if ltb (length bs) (offset + chunk_size) then length bs else offset + chunk_size in
    record {
      transfer_id = transfer_id;
      path = path;
      offset = pos offset;
      chunk_data = take (end - offset) (drop offset bs);
      final = end == length bs;
    }

module _ {F : Type 0} {W : Type 0} (gob : Gob F) (net : NetConn W)
    (path transfer_id addr : String) where
  -- What is done with the answer to a chunk: the connection, and the error if there is one.
  unfoldable pub check_ack : W → Received → W × Option SendError
  check_ack c (failed e) = (c, some (no_ack addr))
  check_ack c (message t payload rest) =
      if t == msg_code msg_file_ack
      then elim (gob.file_ack.decode payload) [
        | none ↦ (net.left c rest, some (chunk_rejected addr))
        | some ack ↦
            if ack.success
            then (net.left c rest, none)
            else (net.left c rest, some (chunk_rejected addr))
      ]
      else (net.left c rest, some (no_ack addr))

  unfoldable pub after_write : W × Option WriteError → W × Option SendError
  unfolding check_ack
  after_write (c, some w) = (c, some (send_chunk addr w))
  after_write (c, none) = check_ack c (read_message (net.unread c))

  unfoldable pub send_one : W → FileChunkPayload → W × Option SendError
  unfolding write_message after_write
  send_one c chunk =
      after_write (write_message net gob.file_chunk.encode c (msg_code msg_file_chunk) chunk)

  -- The loop over the offsets, for one peer.
  unfoldable pub send_chunks : ℕ → W → List ℕ → ℕ → W × Outcome
  unfolding send_one
  send_chunks zero c bs offset = (c, stuck)
  send_chunks (suc fuel) c bs offset =
      let sent = send_one c (chunk_at path transfer_id bs offset) in
      let rest = send_chunks fuel sent.0 bs (offset + chunk_size) in
      if ltb offset (length bs)
      then elim (sent.1) [ some e ↦ (sent.0, stopped e) | none ↦ rest ]
      else (c, done)

module _ {F : Type 0} {W : Type 0} (gob : Gob F) (net : NetConn W)
    (contains : String → String → Bool) where
  abbrev pub skipped : String → String → Bool
  skipped target addr = not (target == "") && not (contains addr target)

  -- The loop over the peers: it stops at the first error. Fuel for a loop over chunks is the length of
  -- the file and one.
  unfoldable pub send_peers :
      String → String → String → List ℕ → List (String × W) → List (String × W) × Outcome
  unfolding send_chunks
  send_peers path transfer_id target bs [] = ([], done)
  send_peers path transfer_id target bs ((addr, c) ∷ peers) =
      let rest = send_peers path transfer_id target bs peers in
      let sent = send_chunks gob net path transfer_id addr (length bs + 1) c bs 0 in
      if skipped target addr then ((addr, c) ∷ rest.0, rest.1) else elim (sent.1) [
        | done ↦ ((addr, sent.0) ∷ rest.0, rest.1)
        | o ↦ ((addr, sent.0) ∷ peers, o)
      ]

  -- `SendFile`: `file` is what `os.ReadFile` gives.
  unfoldable pub send_file :
      Option (List ℕ) → String → String → String → List (String × W) → List (String × W) × Outcome
  unfolding send_peers
  send_file none path transfer_id target peers = (peers, stopped read_file)
  send_file (some bs) path transfer_id target peers = send_peers path transfer_id target bs peers
