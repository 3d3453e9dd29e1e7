-- ===== src/Tests/Mesh.antt =====
-- Runs of the mesh (layer1): messages of a few bytes, a file of three bytes, and three nodes that
-- choose a coordinator. Identifiers are sorted by insertion.
use mathlib.Core.List.{Memᴰ, Permᴰ}
use mathlib.Core.List.Memᴰ
use mathlib.Core.List.Permᴰ
use aizo.Prelude.{
  zero, suc, ◌==◌, ℕ, ◌+◌, ◌<◌, ◌≡◌, ◌≢◌, ◌↔◌, ◌⊎◌, inl, inr, refl, String, true, false, Option,
  none, some, List, [], ◌∷◌, ◌++◌, if◌then◌else◌, take, length, ltb, get, arith, ne_of_test,
  String_discrete, string_eq, Bool-cases, Mem-cons, Mem-Perm,
}
use aizo.Prelude.Int.{pos, pos_part}
use aizo.Prelude.Texts.{leb_string, leb_string_trans, leb_string_total}
use aizo.Layer1.Mesh.Protocol.{
  msg_code, msg_command, NetConn, put_header, read_message, message, failed, read_header,
  read_payload,
}
use aizo.Layer1.Mesh.Protocol.Framing.{frame}
use aizo.Layer1.Mesh.Protocol.Sequence.{write_all, AllWritten, AllRead, write_all-AllRead}
use aizo.Layer1.Mesh.Protocol.Acceptance.{read_message-truncated, read_message-accepts}
use aizo.Layer1.Mesh.Payloads.{Codec, Encodes, Gob, FileChunkPayload, FileAckPayload}
use aizo.Layer1.Mesh.Node.{Host, MeshNode, Files, ended, hung, handle_conn}
use aizo.Layer1.Mesh.Node.Replies.{handle_conn_terminates}
use aizo.Layer1.Mesh.Coordinator.{MeshCoordinator, new_mesh_coordinator}
use aizo.Layer1.Mesh.Coordinator.Agreement.{
  Ascending, Sorts, IsElected, add, remove, run, run-new_IsElected,
}
use aizo.Layer1.Mesh.Transfer.{chunk_at, send_chunks, done}
use aizo.Layer1.Mesh.Transfer.Link.{idle, near_side}
use aizo.Layer1.Mesh.Transfer.Delivery.{Delivers, send_chunks-delivers}

read_message-truncated_example :
    read_message (take 11 (frame 5 (10 ∷ 20 ∷ [])))
    ≡ failed (if ltb 11 10 then read_header else read_payload)
unfolding frame put_header
read_message-truncated_example =
    read_message-truncated 5 11 (10 ∷ 20 ∷ []) (omega arith) (omega arith)

read_message-accepts_example :
    (read_message (0xA1 ∷ 0xAA ∷ []) ≡ message 1 [] [])
    ↔ (((0xA1 ∷ 0xAA ∷ []) ≡ frame 1 [] ++ []) × (length {A = ℕ} [] < 4294967296))
read_message-accepts_example =
    read_message-accepts (0xA1 ∷ 0xAA ∷ []) [] [] 1 (omega arith, (omega arith, tt))

-- A coder for the chunks of one transfer, and one that knows nothing.
abbrev silent : {P : Type 0} → Codec P
silent = record { encode = λ p. none; decode = λ bs. none }

decode_chunk : List ℕ → Option FileChunkPayload
decode_chunk [] = none
decode_chunk (o ∷ []) = none
decode_chunk (o ∷ last ∷ bs) =
    some (record {
      transfer_id = "t";
      path = "f";
      offset = pos o;
      chunk_data = bs;
      final = ltb 0 last;
    })

decode_ack : List ℕ → Option FileAckPayload
decode_ack [] = none
decode_ack (o ∷ bs) =
    some (record { transfer_id = "t"; offset = pos o; success = true; error = "" })

abbrev chunks_only : Gob ℕ
unfolding decode_chunk decode_ack
chunks_only = record {
  ping = silent;
  pong = silent;
  state_request = silent;
  state_response = silent;
  command = silent;
  command_resp = silent;
  file_chunk = record {
    encode = λ p. some (pos_part p.offset ∷ (if p.final then 1 else 0) ∷ p.chunk_data);
    decode = decode_chunk;
  };
  file_ack = record { encode = λ p. some (pos_part p.offset ∷ []); decode = decode_ack };
}

abbrev machine : Host ℕ
machine = record {
  now = λ n. n;
  goos = "linux";
  hostname = "host";
  collect_cpu = λ n. 0;
  collect_memory = λ n. 0;
  collect_disk = λ n. 0;
  collect_uptime = λ n. pos 0;
  shell = λ n command files. if command == "sleep infinity" then none else some (files, "", none);
  open_error = λ n path. none;
  write_error = λ n path. none;
}

abbrev three : List ℕ
three = 1 ∷ 2 ∷ 3 ∷ []

abbrev remote : MeshNode
remote = record { id = "n"; files = ("f", 9 ∷ []) ∷ []; handled = 0 }

chunks_carried :
    (o : ℕ) → o < length three → Encodes chunks_only.file_chunk (chunk_at "f" "t" three o)
unfolding decode_chunk chunks_only native.Mathlib.Decide.ℕ_discrete
chunks_carried zero h = record {
  buf = 0 ∷ 1 ∷ 1 ∷ 2 ∷ 3 ∷ [];
  encoded = refl;
  decoded = refl;
  bytes = (omega arith, (omega arith, (omega arith, (omega arith, (omega arith, tt)))));
  nonempty = omega arith;
  small = omega arith;
}
chunks_carried (suc zero) h = record {
  buf = 1 ∷ 1 ∷ 2 ∷ 3 ∷ [];
  encoded = refl;
  decoded = refl;
  bytes = (omega arith, (omega arith, (omega arith, (omega arith, tt))));
  nonempty = omega arith;
  small = omega arith;
}
chunks_carried (suc (suc zero)) h = record {
  buf = 2 ∷ 1 ∷ 3 ∷ [];
  encoded = refl;
  decoded = refl;
  bytes = (omega arith, (omega arith, (omega arith, tt)));
  nonempty = omega arith;
  small = omega arith;
}
chunks_carried (suc (suc (suc o))) h = absurd (omega (arith, h))

three_delivered : Delivers machine chunks_only "f" "t" "addr" three
unfolding decode_ack chunks_only
three_delivered = record {
  opens = λ n. refl;
  writes = λ n. refl;
  chunks = chunks_carried;
  acks = λ o h. record {
    buf = o ∷ [];
    encoded = refl;
    decoded = refl;
    bytes = (omega (arith, h), tt);
    nonempty = omega arith;
    small = omega arith;
  };
}

-- Two chunks of the file in one stream.
write_all-AllRead_example :
    let ms : List (ℕ × FileChunkPayload) =
      (5, chunk_at "f" "t" three 0) ∷ (5, chunk_at "f" "t" three 2) ∷ [] in
    AllWritten chunks_only.file_chunk [] ms
    × AllRead chunks_only.file_chunk (write_all chunks_only.file_chunk [] ms) ms
write_all-AllRead_example =
    write_all-AllRead chunks_only.file_chunk
      ((5, chunk_at "f" "t" three 0) ∷ (5, chunk_at "f" "t" three 2) ∷ [])
      (chunks_carried 0 (omega arith), (chunks_carried 2 (omega arith), tt))

send_chunks-delivers_example :
    (node' : MeshNode) × (send_chunks chunks_only
        (near_side machine chunks_only)
        "f"
        "t"
        "addr"
        (length three + 1)
        (idle remote)
        three
        0
      ≡ (idle node', done))
    × (get "f" node'.files ≡ some three)
send_chunks-delivers_example =
    send_chunks-delivers machine chunks_only "f" "t" "addr" three remote three_delivered
      (omega arith)

-- A stream that is read, and what is written to it thrown away.
abbrev stream : NetConn (List ℕ)
stream = record { write = λ c bs. (c, true); unread = λ c. c; left = λ c rest. rest }

handle_conn_terminates_example :
    ((node' : MeshNode) × (c' : List ℕ) × (handle_conn machine chunks_only stream 13 remote
          (frame 7 (0 ∷ 1 ∷ []))
        ≡ ended node' c'))
    ⊎ ((cmd : String) × (n : ℕ) × (files : Files) × (handle_conn machine chunks_only stream 13
            remote
            (frame 7 (0 ∷ 1 ∷ []))
          ≡ hung cmd)
        × (machine.shell n cmd files ≡ none))
unfolding frame put_header
handle_conn_terminates_example =
    handle_conn_terminates machine chunks_only stream
      (record { written_kept = λ c bs. refl; read_left = λ c bs. refl }) 13 remote
      (frame 7 (0 ∷ 1 ∷ [])) (omega arith)

-- A node that is sent a command without an end waits for it.
abbrev one_command : Gob ℕ
one_command = record chunks_only {
  command = record {
    encode = λ p. none;
    decode = λ bs. some (record {
      request_id = "r";
      node_id = "n";
      command = "sleep infinity";
      args = [];
      timeout = pos 0;
    });
  };
}

never_answered :
    handle_conn machine one_command stream 12 remote (frame (msg_code msg_command) (0 ∷ []))
    ≡ hung "sleep infinity"
unfolding handle_conn frame put_header String_discrete aizo.Layer1.Mesh.Protocol.read_parsed
    aizo.Layer1.Mesh.Protocol.get_header native.Mathlib.Decide.ℕ_discrete
never_answered = refl

-- Insertion sort.
insert : String → List String → List String
insert s [] = s ∷ []
insert s (t ∷ ts) = let rest = insert s ts in if leb_string s t then s ∷ t ∷ ts else t ∷ rest

sort : List String → List String
unfolding insert
sort [] = []
sort (s ∷ ss) = insert s (sort ss)

insert-Perm : (s : String) (ts : List String) → Permᴰ (insert s ts) (s ∷ ts)
unfolding insert
insert-Perm s [] = Permᴰ.refl (s ∷ [])
insert-Perm s (t ∷ ts) = elim (Bool-cases (leb_string s t)) [
  | inl e ↦ rw e (Permᴰ.refl (s ∷ t ∷ ts))
  | inr e ↦ rw e (Permᴰ.trans (Permᴰ.cons refl (insert-Perm s ts)) (Permᴰ.swap refl refl))
]

insert-Ascending : (s : String) (ts : List String) → Ascending ts → Ascending (insert s ts)
unfolding insert
insert-Ascending s [] a = (λ t m. absurd (Memᴰ.not-nil m), tt)
insert-Ascending s (t ∷ ts) a = elim (Bool-cases (leb_string s t)) [
  | inl e ↦ rw e (below e, a)
  | inr e ↦ rw e (above e, insert-Ascending s ts a.1)
]
  where
    below : leb_string s t ≡ true → (u : String) → Memᴰ u (t ∷ ts) → leb_string s u ≡ true
    below e u m = elim ((Mem-cons u t ts).0 m) [
      | inl p ↦ rw p e
      | inr q ↦ leb_string_trans s t u e (a.0 u q)
    ]

    above : leb_string s t ≡ false → (u : String) → Memᴰ u (insert s ts) → leb_string t u ≡ true
    above e u m = elim ((Mem-cons u s ts).0 (Mem-Perm u (insert-Perm s ts) m)) [
      | inl p ↦ rw p (leb_string_total s t e)
      | inr q ↦ a.0 u q
    ]

sort-Sorts : Sorts sort
unfolding sort
sort-Sorts = record { permutes = permutes; ascends = ascends }
  where
    permutes : (ss : List String) → Permᴰ (sort ss) ss
    permutes [] = Permᴰ.nil
    permutes (s ∷ ss) = Permᴰ.trans (insert-Perm s (sort ss)) (Permᴰ.cons refl (permutes ss))

    ascends : (ss : List String) → Ascending (sort ss)
    ascends [] = tt
    ascends (s ∷ ss) = insert-Ascending s (sort ss) (ascends ss)

run-new_IsElected_example :
    IsElected (run sort (new_mesh_coordinator "b") (add "c" ∷ add "a" ∷ remove "c" ∷ []))
run-new_IsElected_example =
    run-new_IsElected sort sort-Sorts "b" (add "c") (add "a" ∷ remove "c" ∷ [])

abbrev node_a : MeshCoordinator
node_a = record { local_id = "a"; peers = "b" ∷ []; coordinator_id = "a"; is_coordinator = true }

abbrev node_b : MeshCoordinator
node_b = record { local_id = "b"; peers = "a" ∷ []; coordinator_id = "a"; is_coordinator = false }

a-ne-b : ◌≢◌ {A = String} "a" "b"
unfolding String_discrete
a-ne-b = ne_of_test "a" "b" refl

a-ne-empty : ◌≢◌ {A = String} "a" ""
unfolding String_discrete
a-ne-empty = ne_of_test "a" "" refl

a_least : (id : String) → (id ≡ "a") ⊎ (id ≡ "b") → leb_string "a" id ≡ true
unfolding leb_string native.Mathlib.Decide.ℕ_discrete
a_least id (inl e) = rw e refl
a_least id (inr e) = rw e refl

pair : (id s t : String) → Memᴰ id (s ∷ t ∷ []) ↔ ((id ≡ s) ⊎ (id ≡ t))
pair id s t = ground (arith, Mem-cons id s (t ∷ []), Mem-cons id t [], Memᴰ.not-nil {a = id})

node_a-IsElected : IsElected node_a
node_a-IsElected = record {
  member = Memᴰ.head refl;
  least = λ id m. a_least id ((pair id "a" "b").0 m);
  own = (λ e. refl, λ e. refl);
}

node_b-IsElected : IsElected node_b
node_b-IsElected = record {
  member = Memᴰ.tail (Memᴰ.head refl);
  least = λ id m. a_least id (ground (arith, pair id "b" "a", m));
  own = (λ e. cc, λ e. absurd (a-ne-b e));
}
