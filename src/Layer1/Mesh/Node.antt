-- ===== src/Layer1/Mesh/Node.antt =====
-- layer1/mesh_node.go: what a node does with the messages of a connection. The machine it runs on
-- answers through `Host`, whose functions take the number of the message; its files are a map.
pub mod Replies
pub mod Writing
use aizo.Prelude.{
  ℕ, zero, suc, ◌+◌, ◌-◌, String, Bool, true, false, Option, none, some, List, [], ◌∷◌, ◌++◌,
  length, take, drop, if◌then◌else◌, is_some, not, ◌==◌, nat_eq, string_eq, Map, get, put,
}
use aizo.Prelude.Int.{ℤ, pos, negsuc}
use aizo.Layer1.Mesh.Protocol.{
  NetConn, MsgType, msg_code, msg_ping, msg_pong, msg_state_request, msg_state_response,
  msg_command, msg_command_resp, msg_file_chunk, msg_file_ack, write_message, read_message, message,
  failed,
}
use aizo.Layer1.Mesh.Payloads.{
  NodeState, PingPayload, PongPayload, StateRequestPayload, StateResponsePayload, CommandPayload,
  CommandRespPayload, FileChunkPayload, FileAckPayload, Codec, Gob,
}

abbrev pub Files : Type 0
Files = Map String (List ℕ)

-- The operating system: the clock, the measurements, the shell (its output and error, or `none` for a
-- command that never ends), and the errors of opening a file and of writing to it (with the number of
-- bytes written).
pub record Host (F : Type 0) : Type 0 where
  pub now : ℕ → ℕ
  pub goos : String
  pub hostname : String
  pub collect_cpu : ℕ → F
  pub collect_memory : ℕ → F
  pub collect_disk : ℕ → F
  pub collect_uptime : ℕ → ℤ
  pub shell : ℕ → String → Files → Option (Files × String × Option String)
  pub open_error : ℕ → String → Option String
  pub write_error : ℕ → String → Option (ℕ × String)

-- A node: the files of its machine, and how many messages it has read.
pub record MeshNode : Type 0 where
  pub id : String
  pub files : Files
  pub handled : ℕ

-- What comes of a message: the loop returns, waits for a command that never ends, or goes on.
pub data Turn (W : Type 0) : Type 0 where
  returns : Turn W
  hangs : String → Turn W
  goes_on : MeshNode → W → Turn W

-- What comes of a connection; `out_of_fuel` is no outcome.
pub data Served (W : Type 0) : Type 0 where
  out_of_fuel : Served W
  hung : String → Served W
  ended : MeshNode → W → Served W

abbrev pub zeros : ℕ → List ℕ
zeros zero = []
zeros (suc n) = 0 ∷ zeros n

-- `WriteAt`: the gap after the end of a file is filled with zeros.
unfoldable pub write_at : ℕ → List ℕ → List ℕ → List ℕ
write_at offset bs file =
    take offset (file ++ zeros (offset - length file)) ++ bs ++ drop (offset + length bs) file

abbrev pub content : Files → String → List ℕ
content files path = elim (get path files) [ none ↦ [] | some bs ↦ bs ]

-- `os.OpenFile` with O_CREATE, and O_TRUNC at offset 0.
opened : ℤ → List ℕ → List ℕ
opened (pos zero) file = []
opened _ file = file

written : ℤ → List ℕ → List ℕ → Option (ℕ × String) → List ℕ × Option String
unfolding write_at
written (negsuc n) bs file fault = (file, some "negative offset")
written (pos offset) bs file none = (write_at offset bs file, none)
written (pos offset) bs file (some (k, e)) = (write_at offset (take k bs) file, some e)

error_text : Option String → String
error_text none = ""
error_text (some e) = e

module _ {F : Type 0} (host : Host F) where
  unfoldable pub write_file_chunk : ℕ → FileChunkPayload → Files → Files × Option String
  unfolding opened written
  write_file_chunk n chunk files = elim (host.open_error n chunk.path) [
    | some e ↦ (files, some e)
    | none ↦
        let file = opened chunk.offset (content files chunk.path) in
        let (file', e) =
          written chunk.offset chunk.chunk_data file (host.write_error n chunk.path) in
        (put chunk.path file' files, e)
  ]

  unfoldable pub collect_local_state : MeshNode → NodeState F
  collect_local_state node = record {
    id = node.id;
    os = host.goos;
    hostname = host.hostname;
    cpu = host.collect_cpu node.handled;
    memory = host.collect_memory node.handled;
    disk = host.collect_disk node.handled;
    uptime = host.collect_uptime node.handled;
    online = true;
    latency_ms = pos 0;
  }

  -- `executeCommand`: the timeout of the command is computed and not used, so that the call does not
  -- come back from a command that never ends.
  unfoldable pub execute_command :
      MeshNode → CommandPayload → Option (Files × String × Option String)
  execute_command node cmd = host.shell node.handled cmd.command node.files

  module _ {W : Type 0} (gob : Gob F) (net : NetConn W) where
    -- The cases of the switch: at a payload that is not decoded the loop returns. The error of a write
    -- is dropped.
    unfoldable on_ping : MeshNode → W → List ℕ → Turn W
    unfolding write_message
    on_ping node c payload = elim (gob.ping.decode payload) [
      | none ↦ returns
      | some _ ↦ goes_on node (
          (write_message net gob.pong.encode c (msg_code msg_pong)
            (record { sender_id = node.id; timestamp = host.now node.handled })).0)
    ]

    unfoldable on_state_request : MeshNode → W → List ℕ → Turn W
    unfolding collect_local_state
    on_state_request node c payload = elim (gob.state_request.decode payload) [
      | none ↦ returns
      | some req ↦ goes_on node (
          (write_message net gob.state_response.encode c (msg_code msg_state_response)
            (record { request_id = req.request_id; node = collect_local_state node })).0)
    ]

    unfoldable on_command : MeshNode → W → List ℕ → Turn W
    unfolding execute_command error_text
    on_command node c payload = elim (gob.command.decode payload) [
      | none ↦ returns
      | some cmd ↦ elim (execute_command node cmd) [
        | none ↦ hangs cmd.command
        | some (files, output, e) ↦
            goes_on (record node { files = files })
              ((write_message net gob.command_resp.encode c (msg_code msg_command_resp) (record {
                request_id = cmd.request_id;
                node_id = node.id;
                success = not (is_some e);
                output = output;
                error = error_text e;
                duration = pos 0;
              })).0)
      ]
    ]

    unfoldable on_file_chunk : MeshNode → W → List ℕ → Turn W
    unfolding write_file_chunk error_text
    on_file_chunk node c payload = elim (gob.file_chunk.decode payload) [
      | none ↦ returns
      | some chunk ↦
          let (files, e) = write_file_chunk node.handled chunk node.files in
          goes_on (record node { files = files })
            ((write_message net gob.file_ack.encode c (msg_code msg_file_ack) (record {
              transfer_id = chunk.transfer_id;
              offset = chunk.offset;
              success = not (is_some e);
              error = error_text e;
            })).0)
    ]

    unfoldable dispatch : MeshNode → W → ℕ → List ℕ → Turn W
    unfolding on_ping on_state_request on_command on_file_chunk msg_code
    dispatch node c t payload =
        if t == msg_code msg_ping
        then on_ping node c payload
        else if t == msg_code msg_state_request
        then on_state_request node c payload
        else if t == msg_code msg_command
        then on_command node c payload
        else if t == msg_code msg_file_chunk
        then on_file_chunk node c payload
        else goes_on node c

    unfoldable pub handle_message : MeshNode → W → ℕ → List ℕ → Turn W
    unfolding dispatch
    handle_message node c t payload =
        dispatch (record node { handled = node.handled + 1 }) c t payload

    -- The loop of `handleConn`: it ends at an error of reading, or of decoding.
    unfoldable pub handle_conn : ℕ → MeshNode → W → Served W
    unfolding handle_message
    handle_conn zero node c = out_of_fuel
    handle_conn (suc fuel) node c = elim (read_message (net.unread c)) [
      | failed e ↦ ended node c
      | message t payload rest ↦ elim (handle_message node (net.left c rest) t payload) [
        | returns ↦ ended node (net.left c rest)
        | hangs cmd ↦ hung cmd
        | goes_on node' c' ↦ handle_conn fuel node' c'
      ]
    ]
