-- ===== src/Layer1/Mesh/Transfer/Delivery.antt =====
-- A file that is sent stands at the peer (layer1/mesh_adapter.go with layer1/mesh_node.go).
use aizo.Prelude.{
  ℕ, zero, suc, ◌+◌, ◌-◌, ◌<◌, ◌≡◌, inl, inr, refl, sym, ap, ◌∙◌, String, Bool, true, false, Option,
  none, some, List, [], ◌∷◌, ◌++◌, length, take, drop, take_all, take_next, length-take,
  length-drop, ltb, if◌then◌else◌, Bool-cases, nat_eq, string_eq, get, put, get-put, arith,
}
use aizo.Layer1.Mesh.Protocol.{NetConn}
use aizo.Layer1.Mesh.Payloads.{FileChunkPayload, Encodes, Gob}
use aizo.Layer1.Mesh.Node.{Host, MeshNode, Files, write_file_chunk}
use aizo.Layer1.Mesh.Node.Writing.{write_file_chunk-start, write_file_chunk-append}
use aizo.Layer1.Mesh.Transfer.{
  chunk_at, chunk_size, send_chunks, send_peers, send_one, done, stopped, SendError, Outcome,
}
use aizo.Layer1.Mesh.Transfer.Link.{idle, near_side, ack_of, send_one-idle}

take_to_end :
    (k o : ℕ) (bs : List ℕ)
    → take ((if ltb (length bs) (o + k) then length bs else o + k) - o) (drop o bs)
      ≡ take k (drop o bs)
take_to_end k o bs = elim (Bool-cases (ltb (length bs) (o + k))) [
  | inl e ↦ rw e (
      take_all (length bs - o) (drop o bs) (omega (arith, length-drop o bs))
      ∙ sym (take_all k (drop o bs) (ground (arith, length-drop o bs))))
  | inr e ↦ let same : o + k - o ≡ k = omega arith in rw (e, same) refl
]

-- The part of the file that a chunk carries.
chunk_at_data :
    (path transfer_id : String) (bs : List ℕ) (offset : ℕ)
    → (chunk_at path transfer_id bs offset).chunk_data ≡ take chunk_size (drop offset bs)
chunk_at_data path transfer_id bs offset = take_to_end chunk_size offset bs

-- A chunk that is sent leads the loop to the next.
send_chunks-sent :
    {F W : Type 0} (gob : Gob F) (net : NetConn W) (path transfer_id addr : String) (fuel : ℕ)
    (c c' : W) (bs : List ℕ) (o : ℕ)
    → ltb o (length bs) ≡ true
    → send_one gob net path transfer_id addr c (chunk_at path transfer_id bs o) ≡ (c', none)
    → send_chunks gob net path transfer_id addr (suc fuel) c bs o
      ≡ send_chunks gob net path transfer_id addr fuel c' bs (o + chunk_size)
unfolding send_chunks
send_chunks-sent {W = W} gob net path transfer_id addr fuel c c' bs o l e = rw l (ap then_rest e)
  where
    then_rest : W × Option SendError → W × Outcome
    then_rest s = elim (s.1) [
      | some e ↦ (s.0, stopped e)
      | none ↦ send_chunks gob net path transfer_id addr fuel s.0 bs (o + chunk_size)
    ]

-- The files hold the first bytes of what is sent, at the start of it whatever they hold.
abbrev Sent : String → List ℕ → ℕ → Files → Type 0
Sent path bs zero files = Unit
Sent path bs (suc o) files = get path files ≡ some (take (suc o) bs)

module _ {F : Type 0} (host : Host F) (gob : Gob F) (path transfer_id addr : String)
    (bs : List ℕ) where
  -- What delivery needs: the machine writes the file, and gob carries the chunks that start within the
  -- file, and their answers, as bytes.
  pub record Delivers : Type 0 where
    pub opens : (n : ℕ) → host.open_error n path ≡ none
    pub writes : (n : ℕ) → host.write_error n path ≡ none
    pub chunks : (o : ℕ) → o < length bs → Encodes gob.file_chunk (chunk_at path transfer_id bs o)
    pub acks :
        (o : ℕ)
        → o < length bs
        → Encodes gob.file_ack (ack_of host gob (chunk_at path transfer_id bs o))

  file_of : ℕ → FileChunkPayload
  file_of = chunk_at path transfer_id bs

  -- One chunk more of the file is written.
  write_next :
      (n o : ℕ) (files : Files)
      → Delivers
      → o < length bs
      → Sent path bs o files
      → write_file_chunk host n (file_of o) files
        ≡ (put path (take (o + chunk_size) bs) files, none)
  unfolding file_of
  write_next n zero files d l s =
      write_file_chunk-start host n (file_of 0) files (d.opens n) (d.writes n) refl
      ∙ ap (λ x. (put path x files, none)) (chunk_at_data path transfer_id bs 0)
  write_next n (suc o) files d l s =
      write_file_chunk-append host n (file_of (suc o)) files o (take (suc o) bs) (d.opens n)
        (d.writes n) refl s (length-take (suc o) bs (omega (arith, l)))
      ∙ ap (λ x. (put path x files, none))
          (ap (λ x. take (suc o) bs ++ x) (chunk_at_data path transfer_id bs (suc o))
            ∙ take_next (suc o) chunk_size bs)

  send_chunks-end :
      (fuel o : ℕ) (node : MeshNode)
      → ltb o (length bs) ≡ false
      → send_chunks gob (near_side host gob) path transfer_id addr (suc fuel) (idle node) bs o
        ≡ (idle node, done)
  unfolding send_chunks
  send_chunks-end fuel o node e = rw e refl

  Sent-end :
      (o : ℕ) (files : Files)
      → Sent path bs o files
      → ltb o (length bs) ≡ false
      → 0 < length bs
      → get path files ≡ some bs
  Sent-end zero files s e l = absurd (ground arith)
  Sent-end (suc o) files s e l = s ∙ ap (λ x. some x) (take_all (suc o) bs (ground arith))

  Sent-next :
      (o : ℕ) (files : Files)
      → Sent path bs (o + chunk_size) (put path (take (o + chunk_size) bs) files)
  Sent-next o files =
      sent_at (o + chunk_size) (put path (take (o + chunk_size) bs) files)
        (ground (arith, get-put path path (take (o + chunk_size) bs) files))
    where
      sent_at : (m : ℕ) (files : Files) → get path files ≡ some (take m bs) → Sent path bs m files
      sent_at zero files h = tt
      sent_at (suc m) files h = h

  -- A loop from an offset on, with an idle node that has what stands before it.
  send_chunks-rest :
      (fuel o : ℕ) (node : MeshNode)
      → Delivers
      → length bs - o < fuel
      → Sent path bs o node.files
      → (node' : MeshNode) × (send_chunks gob
            (near_side host gob)
            path
            transfer_id
            addr
            fuel
            (idle node)
            bs
            o
          ≡ (idle node', done))
        × (0 < length bs → get path node'.files ≡ some bs)
  unfolding file_of
  send_chunks-rest zero o node d f s = absurd (omega (arith, f))
  send_chunks-rest (suc fuel) o node d f s = elim (Bool-cases (ltb o (length bs))) [
    | inr e ↦ (node, send_chunks-end fuel o node e, Sent-end o node.files s e)
    | inl e ↦
        let files = put path (take (o + chunk_size) bs) node.files in
        let after : MeshNode = record { id = node.id; files = files; handled = node.handled + 1 } in
        let (node', run, holds) =
          send_chunks-rest fuel (o + chunk_size) after d (ground arith) (Sent-next o node.files) in
        (
          node',
          send_chunks-sent gob (near_side host gob) path transfer_id addr fuel (idle node)
                (idle after) bs o e
                (send_one-idle host gob path transfer_id addr node (file_of o) files
                  (d.chunks o (ground arith)) (d.acks o (ground arith))
                  (write_next (node.handled + 1) o node.files d (ground arith) s))
              ∙ run,
          holds,
        )
  ]

  -- Sending a file that is not empty to an idle node ends with success, by fuel of its length and one,
  -- and the node then holds the bytes of the file under the path, whatever it held before, when its
  -- machine writes the file and gob carries the chunks and the answers.
  pub send_chunks-delivers :
      (node : MeshNode)
      → Delivers
      → 0 < length bs
      → (node' : MeshNode) × (send_chunks gob
            (near_side host gob)
            path
            transfer_id
            addr
            (length bs + 1)
            (idle node)
            bs
            0
          ≡ (idle node', done))
        × (get path node'.files ≡ some bs)
  send_chunks-delivers node d l =
      let (node', run, holds) = send_chunks-rest (length bs + 1) 0 node d (omega arith) tt in
      (node', run, holds l)

-- An empty file is not sent at all: SendFile reports success, and no peer sees anything of it.
send_peers-empty :
    {F W : Type 0} (gob : Gob F) (net : NetConn W) (contains : String → String → Bool)
    (path transfer_id target : String) (peers : List (String × W))
    → send_peers gob net contains path transfer_id target [] peers ≡ (peers, done)
unfolding send_peers send_chunks
send_peers-empty gob net contains path transfer_id target [] = refl
send_peers-empty gob net contains path transfer_id target ((addr, c) ∷ peers) =
    ground (arith, send_peers-empty gob net contains path transfer_id target peers)
