-- ===== src/Layer1/Mesh/Node/Replies.antt =====
-- The loop over the messages of a connection (layer1/mesh_node.go).
use aizo.Prelude.{
  String, ℕ, zero, suc, ◌+◌, ◌<◌, ◌≡◌, ◌⊎◌, inl, inr, refl, true, Option, none, some, List, length,
  nat_eq, Option-cases, arith,
}
use aizo.Layer1.Mesh.Protocol.{
  NetConn, msg_code, msg_file_chunk, msg_file_ack, Received, message, failed, read_message,
  write_message, put_header, header_of,
}
use aizo.Layer1.Mesh.Protocol.Acceptance.{read_message-length}
use aizo.Layer1.Mesh.Payloads.{Gob, FileChunkPayload}
use aizo.Layer1.Mesh.Node.{
  Host, MeshNode, on_ping, on_state_request, on_command, on_file_chunk, dispatch, error_text, Files,
  write_file_chunk, handle_message, handle_conn, Turn, returns, hangs, goes_on, hung, ended,
  execute_command,
}

-- A connection whose reader gets a fixed stream: writes do not change it, and what was read is gone.
pub record IsStream {W : Type 0} (net : NetConn W) : Type 0 where
  pub written_kept : (c : W) (bs : List ℕ) → net.unread (net.write c bs).0 ≡ net.unread c
  pub read_left : (c : W) (bs : List ℕ) → net.unread (net.left c bs) ≡ bs

Received-cases :
    (r : Received)
    → ((t : ℕ) × (buf : List ℕ) × (rest : List ℕ) × (r ≡ message t buf rest))
      ⊎ ((e : _) × (r ≡ failed e))
Received-cases (message t buf rest) = inl (t, buf, rest, refl)
Received-cases (failed e) = inr (e, refl)

module _ {F : Type 0} {W : Type 0} (host : Host F) (gob : Gob F) (net : NetConn W)
    (stream : IsStream net) where
  write_message-unread {ℓ} :
      {P : Type ℓ} (encode : P → Option (List ℕ)) (c : W) (t : ℕ) (p : P)
      → net.unread (write_message net encode c t p).0 ≡ net.unread c
  unfolding write_message
  write_message-unread encode c t p = elim (Option-cases (encode p)) [
    | inl e ↦ ground arith
    | inr (buf, e) ↦ ground (
      arith,
      stream.written_kept c (put_header (header_of t buf)),
      stream.written_kept (net.write c (put_header (header_of t buf))).0 buf,
    )
  ]

  handle_message-unread :
      (node node' : MeshNode) (c c' : W) (t : ℕ) (payload : List ℕ)
      → handle_message host gob net node c t payload ≡ goes_on node' c'
      → net.unread c' ≡ net.unread c
  unfolding handle_message dispatch on_ping on_state_request on_command on_file_chunk
  handle_message-unread node node' c c' t payload e = grind (arith, write_message-unread)

  -- The loop waits only for a command that never ends.
  handle_message-hangs :
      (node : MeshNode) (c : W) (t : ℕ) (payload : List ℕ) (cmd : String)
      → handle_message host gob net node c t payload ≡ hangs cmd
      → host.shell (node.handled + 1) cmd node.files ≡ none
  unfolding handle_message dispatch on_ping on_state_request on_command on_file_chunk
      execute_command
  handle_message-hangs node c t payload cmd e = grind arith

  Turn-cases :
      (u : Turn W)
      → (u ≡ returns)
        ⊎ (((cmd : String) × (u ≡ hangs cmd))
            ⊎ ((node : MeshNode) × (c : W) × (u ≡ goes_on node c)))
  Turn-cases returns = inl refl
  Turn-cases (hangs cmd) = inr (inl (cmd, refl))
  Turn-cases (goes_on node c) = inr (inr (node, c, refl))

  -- On a stream the loop of handleConn comes to an end, or waits in the shell for a command that never
  -- ends: fuel beyond the bytes of the stream is enough, since every message takes ten of them at least.
  pub handle_conn_terminates :
      (fuel : ℕ) (node : MeshNode) (c : W)
      → length (net.unread c) < fuel
      → ((node' : MeshNode) × (c' : W) × (handle_conn host gob net fuel node c ≡ ended node' c'))
        ⊎ ((cmd : String) × (n : ℕ) × (files : Files) × (handle_conn host gob net fuel node c
              ≡ hung cmd)
            × (host.shell n cmd files ≡ none))
  unfolding handle_conn
  handle_conn_terminates zero node c h = absurd (omega (arith, h))
  handle_conn_terminates (suc fuel) node c h = elim (Received-cases (read_message (net.unread c))) [
    | inr (e, p) ↦ rw (p, handle_conn) (inl (node, c, refl))
    | inl (t, payload, rest, p) ↦
        elim (Turn-cases (handle_message host gob net node (net.left c rest) t payload)) [
          | inl q ↦ rw (p, handle_conn, q) (inl (node, net.left c rest, refl))
          | inr (inl (cmd, q)) ↦
              rw (p, handle_conn, q)
                (inr (
                  cmd,
                  node.handled + 1,
                  node.files,
                  refl,
                  handle_message-hangs node (net.left c rest) t payload cmd q,
                ))
          | inr (inr (node', c', q)) ↦
              let shorter : length (net.unread c') < fuel = ground (
                arith,
                read_message-length (net.unread c) payload rest t,
                stream.read_left c rest,
                handle_message-unread node node' (net.left c rest) c' t payload,
              ) in
              rw (p, handle_conn, q) (handle_conn_terminates fuel node' c' shorter)
        ]
  ]

module _ {F : Type 0} {W : Type 0} (host : Host F) (gob : Gob F) (net : NetConn W) where
  -- A chunk that is written is acknowledged.
  pub handle_message-file_chunk :
      (node : MeshNode) (c : W) (payload : List ℕ) (chunk : FileChunkPayload) (files : Files)
      → gob.file_chunk.decode payload ≡ some chunk
      → write_file_chunk host (node.handled + 1) chunk node.files ≡ (files, none)
      → handle_message host gob net node c (msg_code msg_file_chunk) payload
        ≡ goes_on
            (record { id = node.id; files = files; handled = node.handled + 1 })
            ((write_message net gob.file_ack.encode c (msg_code msg_file_ack) (record {
              transfer_id = chunk.transfer_id;
              offset = chunk.offset;
              success = true;
              error = "";
            })).0)
  unfolding handle_message dispatch on_file_chunk error_text msg_code
      native.Mathlib.Decide.ℕ_discrete
  handle_message-file_chunk node c payload chunk files e w = ground arith
