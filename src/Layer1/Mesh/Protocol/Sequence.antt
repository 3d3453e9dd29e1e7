-- ===== src/Layer1/Mesh/Protocol/Sequence.antt =====
-- Messages that are written one after another (layer1/mesh_protocol.go).
use mathlib.Core.Path.{subst}
use aizo.Prelude.{
  ℕ, ◌≡◌, refl, sym, ap, ◌∙◌, true, none, some, List, [], ◌∷◌, ◌++◌, All, append_assoc, append-nil,
}
use aizo.Layer1.Mesh.Protocol.{NetConn, put_header, header_of, write_message, read_message, message}
use aizo.Layer1.Mesh.Protocol.Framing.{frame, read_message-frame, write_message-whole}
use aizo.Layer1.Mesh.Payloads.{Codec, Encodes}

-- A connection that hands on what is written to it.
abbrev pub pipe : NetConn (List ℕ)
pipe = record { write = λ out bs. (out ++ bs, true); unread = λ out. out; left = λ out rest. rest }

module _ {P : Type 0} (codec : Codec P) where
  -- The bytes on the pipe when messages of a type and a payload were written after those before.
  unfoldable pub write_all : List ℕ → List (ℕ × P) → List ℕ
  write_all out [] = out
  write_all out ((t, p) ∷ ms) = write_all (write_message pipe codec.encode out t p).0 ms

  -- No write answers an error.
  unfoldable pub AllWritten : List ℕ → List (ℕ × P) → Type 0
  AllWritten out [] = Unit
  AllWritten out ((t, p) ∷ ms) =
      ((write_message pipe codec.encode out t p).1 ≡ none)
      × AllWritten (write_message pipe codec.encode out t p).0 ms

  -- Reading message after message gives these types and payloads, in this order, and no byte is left.
  unfoldable pub AllRead : List ℕ → List (ℕ × P) → Type 0
  AllRead bs [] = bs ≡ []
  AllRead bs ((t, p) ∷ ms) =
      (buf : List ℕ) × (rest : List ℕ) × (read_message bs ≡ message t buf rest)
      × (codec.decode buf ≡ some p)
      × AllRead rest ms

  write_one :
      (out : List ℕ) (t : ℕ) (p : P) (e : Encodes codec p)
      → write_message pipe codec.encode out t p ≡ (out ++ frame t e.buf, none)
  unfolding frame
  write_one out t p e =
      write_message-whole pipe codec.encode out t p e.buf e.encoded (λ w bs. refl)
      ∙ ap (λ bs. (bs, none)) (append_assoc out (put_header (header_of t e.buf)) e.buf)

  frames :
      (ms : List (ℕ × P))
      → All (λ m. Encodes codec (m.1)) ms
      → (bs : List ℕ) × ((out : List ℕ) → write_all out ms ≡ out ++ bs)
        × ((out : List ℕ) → AllWritten out ms)
        × AllRead bs ms
  unfolding write_all AllWritten AllRead
  frames [] h = ([], (λ out. sym (append-nil out)), (λ out. tt), refl)
  frames ((t, p) ∷ ms) (e, h) =
      let (bs, all, ok, back) = frames ms h in
      (
        frame t e.buf ++ bs,
        (λ out.
            ap (λ w. write_all w.0 ms) (write_one out t p e)
            ∙ (all (out ++ frame t e.buf) ∙ append_assoc out (frame t e.buf) bs)),
        (λ out.
            (ap (λ w. w.1) (write_one out t p e), ok (write_message pipe codec.encode out t p).0)),
        (e.buf, bs, read_message-frame t e.buf bs e.small, e.decoded, back),
      )

  -- When messages are written one after another to a connection that hands on every byte, no write
  -- answers an error, and reading gives the same types and payloads in the same order and leaves no
  -- byte, if the coder gives each payload some bytes below 2 ^ 32 and reads them back.
  pub write_all-AllRead :
      (ms : List (ℕ × P))
      → All (λ m. Encodes codec (m.1)) ms
      → AllWritten [] ms × AllRead (write_all [] ms) ms
  write_all-AllRead ms h =
      let (bs, all, ok, back) = frames ms h in
      (ok [], subst (λ l. AllRead l ms) (sym (all [])) back)
