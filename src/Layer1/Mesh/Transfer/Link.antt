-- ===== src/Layer1/Mesh/Transfer/Link.antt =====
-- The two sides of a connection joined: what the adapter writes arrives at a node
-- (layer1/mesh_node.go), which answers a message as soon as it is complete.
use aizo.Prelude.{
  ℕ, String, ◌+◌, ◌≡◌, refl, sym, ap, ◌∙◌, true, none, List, [], ◌++◌, append-nil, nat_eq,
}
use aizo.Layer1.Mesh.Protocol.{
  NetConn, Received, message, failed, read_message, write_message, put_header, header_of, msg_code,
  msg_file_chunk, msg_file_ack,
}
use aizo.Layer1.Mesh.Protocol.Framing.{frame, read_message-frame, write_message-whole}
use aizo.Layer1.Mesh.Protocol.Acceptance.{read_message-header}
use aizo.Layer1.Mesh.Node.Replies.{handle_message-file_chunk}
use aizo.Layer1.Mesh.Payloads.{FileChunkPayload, FileAckPayload, Codec, Encodes, Gob}
use aizo.Layer1.Mesh.Node.{
  Host, MeshNode, Files, Turn, returns, hangs, goes_on, handle_message, write_file_chunk,
}
use aizo.Layer1.Mesh.Transfer.{send_one, after_write, check_ack}

pub record Link : Type 0 where
  pub node : MeshNode
  pub pending : List ℕ
  pub unread : List ℕ

-- The node's side: its answers, in the order of its writes.
abbrev pub far_side : NetConn (List ℕ)
far_side = record {
  write = λ out bs. (out ++ bs, true);
  unread = λ out. [];
  left = λ out rest. out;
}

abbrev pub idle : MeshNode → Link
idle node = record { node = node; pending = []; unread = [] }

module _ {F : Type 0} (host : Host F) (gob : Gob F) where
  abbrev pub replied : Link → List ℕ → Turn (List ℕ) → Link
  replied l rest returns = record l { pending = rest }
  replied l rest (hangs cmd) = record l { pending = rest }
  replied l rest (goes_on node out) = record { node = node; pending = rest; unread = out }

  abbrev pub arrive : Link → List ℕ → Received → Link
  arrive l bs (failed e) = record l { pending = bs }
  arrive l bs (message t payload rest) =
      replied l rest (handle_message host gob far_side l.node l.unread t payload)

  abbrev pub near_side : NetConn Link
  near_side = record {
    write = λ l bs. (arrive l (l.pending ++ bs) (read_message (l.pending ++ bs)), true);
    unread = λ l. l.unread;
    left = λ l rest. record l { unread = rest };
  }

  -- A message of two writes, its header and its payload, is handled once.
  write_message-idle :
      (c : Codec FileChunkPayload) (node : MeshNode) (t : ℕ) (p : FileChunkPayload)
      (e : Encodes c p)
      → write_message near_side c.encode (idle node) t p
        ≡ (replied (idle node) [] (handle_message host gob far_side node [] t e.buf), none)
  unfolding frame
  write_message-idle c node t p e =
      write_message-whole near_side c.encode (idle node) t p e.buf e.encoded (λ w bs. refl)
      ∙ ap (λ r. ((near_side.write (arrive (idle node) header r) e.buf).0, none))
          (read_message-header t e.buf e.nonempty e.small)
      ∙ ap (λ r. (arrive waiting (header ++ e.buf) r, none)) whole
    where
      header : List ℕ
      header = put_header (header_of t e.buf)

      waiting : Link
      waiting = record { node = node; pending = header; unread = [] }

      whole : read_message (header ++ e.buf) ≡ message t e.buf []
      whole =
          ap read_message (sym (append-nil (header ++ e.buf)))
          ∙ read_message-frame t e.buf [] e.small

  abbrev pub ack_of : FileChunkPayload → FileAckPayload
  ack_of chunk = record {
    transfer_id = chunk.transfer_id;
    offset = chunk.offset;
    success = true;
    error = "";
  }

  -- The answer of the node to a chunk that it writes.
  answered :
      (node : MeshNode) (chunk : FileChunkPayload) (files : Files)
      (ce : Encodes gob.file_chunk chunk) (ae : Encodes gob.file_ack (ack_of chunk))
      → write_file_chunk host (node.handled + 1) chunk node.files ≡ (files, none)
      → handle_message host gob far_side node [] (msg_code msg_file_chunk) ce.buf
        ≡ goes_on
            (record { id = node.id; files = files; handled = node.handled + 1 })
            (frame (msg_code msg_file_ack) ae.buf)
  unfolding frame
  answered node chunk files ce ae w =
      handle_message-file_chunk host gob far_side node [] ce.buf chunk files ce.decoded w
      ∙ ap
          (λ out.
            goes_on (record { id = node.id; files = files; handled = node.handled + 1 }) out.0)
          (write_message-whole far_side gob.file_ack.encode [] (msg_code msg_file_ack)
            (ack_of chunk) ae.buf ae.encoded (λ w bs. refl))

  -- Sending a chunk to an idle node leaves it idle, with the chunk written and the answer read.
  pub send_one-idle :
      (path transfer_id addr : String) (node : MeshNode) (chunk : FileChunkPayload) (files : Files)
      → Encodes gob.file_chunk chunk
      → Encodes gob.file_ack (ack_of chunk)
      → write_file_chunk host (node.handled + 1) chunk node.files ≡ (files, none)
      → send_one gob near_side path transfer_id addr (idle node) chunk
        ≡ (idle (record { id = node.id; files = files; handled = node.handled + 1 }), none)
  unfolding send_one after_write check_ack msg_code native.Mathlib.Decide.ℕ_discrete
  send_one-idle path transfer_id addr node chunk files ce ae w =
      ap (after_write gob near_side path transfer_id addr) sent
      ∙ ap (check_ack gob near_side path transfer_id addr replied_link) got
      ∙ decoded
    where
      after : MeshNode
      after = record { id = node.id; files = files; handled = node.handled + 1 }

      replied_link : Link
      replied_link = record {
        node = after;
        pending = [];
        unread = frame (msg_code msg_file_ack) ae.buf;
      }

      sent :
          write_message near_side gob.file_chunk.encode (idle node) (msg_code msg_file_chunk) chunk
          ≡ (replied_link, none)
      sent =
          write_message-idle gob.file_chunk node (msg_code msg_file_chunk) chunk ce
          ∙ ap (λ r. (replied (idle node) [] r, none)) (answered node chunk files ce ae w)

      got :
          read_message (frame (msg_code msg_file_ack) ae.buf)
          ≡ message (msg_code msg_file_ack) ae.buf []
      got =
          ap read_message (sym (append-nil (frame (msg_code msg_file_ack) ae.buf)))
          ∙ read_message-frame (msg_code msg_file_ack) ae.buf [] ae.small

      decoded :
          check_ack gob near_side path transfer_id addr replied_link
            (message (msg_code msg_file_ack) ae.buf [])
          ≡ (idle after, none)
      decoded = rw (ae.decoded) refl
