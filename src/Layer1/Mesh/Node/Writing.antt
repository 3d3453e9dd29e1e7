-- ===== src/Layer1/Mesh/Node/Writing.antt =====
-- Writing the chunks of a file in order (layer1/mesh_node.go).
use aizo.Prelude.{
  ℕ, suc, ◌+◌, ◌-◌, ◌≡◌, refl, ap, none, some, List, [], ◌++◌, length, take-append, drop_all,
  append-nil, get, put, string_eq, arith,
}
use aizo.Prelude.Int.{pos}
use aizo.Layer1.Mesh.Payloads.{FileChunkPayload}
use aizo.Layer1.Mesh.Node.{Host, Files, zeros, write_at, write_file_chunk, opened, written}

-- Writing where a file ends appends to it.
write_at-end : (bs file : List ℕ) → write_at (length file) bs file ≡ file ++ bs
unfolding write_at
write_at-end bs file = rw (
  take-append (length file) file (zeros (length file - length file)) refl,
  drop_all (length file + length bs) file (omega arith),
  append-nil (file ++ bs),
)

module _ {F : Type 0} (host : Host F) (n : ℕ) (chunk : FileChunkPayload) (files : Files) where
  -- The chunk at offset 0 replaces a file, or makes it.
  pub write_file_chunk-start :
      host.open_error n chunk.path ≡ none
      → host.write_error n chunk.path ≡ none
      → chunk.offset ≡ pos 0
      → write_file_chunk host n chunk files ≡ (put chunk.path chunk.chunk_data files, none)
  unfolding write_file_chunk opened written
  write_file_chunk-start o w z = ground (arith, write_at-end chunk.chunk_data [])

  -- A later chunk, at the end of what is there, appends.
  pub write_file_chunk-append :
      (k : ℕ) (file : List ℕ)
      → host.open_error n chunk.path ≡ none
      → host.write_error n chunk.path ≡ none
      → chunk.offset ≡ pos (suc k)
      → get chunk.path files ≡ some file
      → length file ≡ suc k
      → write_file_chunk host n chunk files
        ≡ (put chunk.path (file ++ chunk.chunk_data) files, none)
  unfolding write_file_chunk opened written
  write_file_chunk-append k file o w z g l =
      ground
        (arith, write_at-end chunk.chunk_data file, ap (λ m. write_at m chunk.chunk_data file) l)
