-- ===== src/Layer1/Mesh/Protocol/Acceptance.antt =====
-- What is read as a message, and the errors of what is not (layer1/mesh_protocol.go).
use aizo.Prelude.{
  ℕ, ◌+◌, ◌*◌, ◌/◌, ◌%◌, ◌-◌, ◌≤◌, ◌<◌, ◌≡◌, ◌≢◌, ◌↔◌, inl, inr, refl, sym, ap, ◌∙◌, none, some,
  List, [], ◌∷◌, ◌++◌, length, length-append, take, take-append-drop, length-take, length-drop,
  take_past, append_assoc, All, Bool-cases, Option-cases, ltb, false, nat_eq, arith, if◌then◌else◌,
  append_assoc, append-nil, length-take, length-drop, take_past,
}
use aizo.Layer1.Mesh.Protocol.{
  MeshHeader, put_header, get_header, header_of, read_body, read_message, read_parsed, message,
  failed, read_header, read_payload,
}
use aizo.Layer1.Mesh.Protocol.Framing.{IsByte, frame, read_frame, read_message-frame}

length_bytes :
    (l3 l2 l1 l0 : ℕ)
    → IsByte l3
    → IsByte l2
    → IsByte l1
    → IsByte l0
    → let n = l3 * 16777216 + l2 * 65536 + l1 * 256 + l0 in
      (n < 4294967296)
      × (n / 16777216 % 256 ≡ l3)
      × (n / 65536 % 256 ≡ l2)
      × (n / 256 % 256 ≡ l1)
      × (n % 256 ≡ l0)
length_bytes l3 l2 l1 l0 b3 b2 b1 b0 =
    (omega arith, omega arith, omega arith, omega arith, omega arith)

-- The bytes of a header stand for it.
header_of_bytes :
    (bs rest : List ℕ) (h : MeshHeader)
    → All IsByte bs
    → get_header bs ≡ some (h, rest)
    → (bs ≡ put_header h ++ rest) × (h.payload_len < 4294967296)
unfolding get_header put_header
header_of_bytes (m0 ∷ m1 ∷ m2 ∷ m3 ∷ v ∷ t ∷ l3 ∷ l2 ∷ l1 ∷ l0 ∷ bs) rest h
      (_, (_, (_, (_, (_, (_, (b3, (b2, (b1, (b0, more)))))))))) e =
    ground (arith, length_bytes l3 l2 l1 l0 b3 b2 b1 b0)
header_of_bytes [] rest h bytes e = cc
header_of_bytes (_ ∷ []) rest h bytes e = cc
header_of_bytes (_ ∷ _ ∷ []) rest h bytes e = cc
header_of_bytes (_ ∷ _ ∷ _ ∷ []) rest h bytes e = cc
header_of_bytes (_ ∷ _ ∷ _ ∷ _ ∷ []) rest h bytes e = cc
header_of_bytes (_ ∷ _ ∷ _ ∷ _ ∷ _ ∷ []) rest h bytes e = cc
header_of_bytes (_ ∷ _ ∷ _ ∷ _ ∷ _ ∷ _ ∷ []) rest h bytes e = cc
header_of_bytes (_ ∷ _ ∷ _ ∷ _ ∷ _ ∷ _ ∷ _ ∷ []) rest h bytes e = cc
header_of_bytes (_ ∷ _ ∷ _ ∷ _ ∷ _ ∷ _ ∷ _ ∷ _ ∷ []) rest h bytes e = cc
header_of_bytes (_ ∷ _ ∷ _ ∷ _ ∷ _ ∷ _ ∷ _ ∷ _ ∷ _ ∷ []) rest h bytes e = cc

get_header-short : (bs : List ℕ) → length bs < 10 → get_header bs ≡ none
unfolding get_header
get_header-short (m0 ∷ m1 ∷ m2 ∷ m3 ∷ v ∷ t ∷ l3 ∷ l2 ∷ l1 ∷ l0 ∷ bs) h = absurd (omega (arith, h))
get_header-short [] h = refl
get_header-short (_ ∷ []) h = refl
get_header-short (_ ∷ _ ∷ []) h = refl
get_header-short (_ ∷ _ ∷ _ ∷ []) h = refl
get_header-short (_ ∷ _ ∷ _ ∷ _ ∷ []) h = refl
get_header-short (_ ∷ _ ∷ _ ∷ _ ∷ _ ∷ []) h = refl
get_header-short (_ ∷ _ ∷ _ ∷ _ ∷ _ ∷ _ ∷ []) h = refl
get_header-short (_ ∷ _ ∷ _ ∷ _ ∷ _ ∷ _ ∷ _ ∷ []) h = refl
get_header-short (_ ∷ _ ∷ _ ∷ _ ∷ _ ∷ _ ∷ _ ∷ _ ∷ []) h = refl
get_header-short (_ ∷ _ ∷ _ ∷ _ ∷ _ ∷ _ ∷ _ ∷ _ ∷ _ ∷ []) h = refl

length-header : (t : ℕ) (buf : List ℕ) → length (put_header (header_of t buf)) ≡ 10
unfolding put_header
length-header t buf = refl

read_message-short : (bs : List ℕ) → length bs < 10 → read_message bs ≡ failed read_header
unfolding read_parsed
read_message-short bs h = ap read_parsed (get_header-short bs h)

read_message-cut :
    (t k : ℕ) (buf : List ℕ)
    → length buf < 4294967296
    → k < length buf
    → read_message (put_header (header_of t buf) ++ take k buf) ≡ failed read_payload
unfolding read_body native.Mathlib.Decide.ℕ_discrete
read_message-cut t k buf b h = read_frame t buf (take k buf) ∙ (ground (arith, length-take k buf))

-- A stream that ends inside of a message gives no message, but the error of the part that is cut.
pub read_message-truncated :
    (t n : ℕ) (buf : List ℕ)
    → length buf < 4294967296
    → n < length (frame t buf)
    → read_message (take n (frame t buf)) ≡ failed (if ltb n 10 then read_header else read_payload)
unfolding frame
read_message-truncated t n buf b h = elim (Bool-cases (ltb n 10)) [
  | inl e ↦
      rw e (read_message-short (take n (frame t buf)) (ground (arith, length-take n (frame t buf))))
  | inr e ↦ rw e (ap read_message (cut e) ∙ read_message-cut t (n - 10) buf b (rest_short e))
]
  where
    cut :
        ltb n 10 ≡ false → take n (frame t buf) ≡ put_header (header_of t buf) ++ take (n - 10) buf
    cut e = ground (arith, take_past n (put_header (header_of t buf)) buf, length-header t buf)

    rest_short : ltb n 10 ≡ false → n - 10 < length buf
    rest_short e =
        ground (arith, length-append (put_header (header_of t buf)) buf, length-header t buf)

read_parsed-none : (t : ℕ) (buf rest : List ℕ) → read_parsed none ≢ message t buf rest
unfolding read_parsed
read_parsed-none t buf rest e = cc

read_parsed-message :
    (h : MeshHeader) (r buf rest : List ℕ) (t : ℕ)
    → h.payload_len < 4294967296
    → read_parsed (some (h, r)) ≡ message t buf rest
    → (put_header h ≡ put_header (header_of t buf)) × (r ≡ buf ++ rest) × (length buf < 4294967296)
unfolding read_parsed read_body put_header
read_parsed-message h r buf rest t b e =
    grind (arith, take-append-drop h.payload_len r, length-take h.payload_len r)

-- What is read as a message is its frame: nothing else is accepted.
pub read_message-accepts :
    (bs buf rest : List ℕ) (t : ℕ)
    → All IsByte bs
    → (read_message bs ≡ message t buf rest)
      ↔ ((bs ≡ frame t buf ++ rest) × (length buf < 4294967296))
unfolding frame
read_message-accepts bs buf rest t bytes =
    (accepted, λ p. ap read_message p.0 ∙ read_message-frame t buf rest p.1)
  where
    accepted :
        read_message bs ≡ message t buf rest
        → (bs ≡ frame t buf ++ rest) × (length buf < 4294967296)
    accepted e = elim (Option-cases (get_header bs)) [
      | inl n ↦ absurd (read_parsed-none t buf rest (sym (ap read_parsed n) ∙ e))
      | inr (hr, g) ↦
          let (shape, small) = header_of_bytes bs hr.1 hr.0 bytes g in
          let (p, q, l) =
            read_parsed-message hr.0 hr.1 buf rest t small (sym (ap read_parsed g) ∙ e) in
          (shape ∙ rw (p, q) (sym (append_assoc (put_header (header_of t buf)) buf rest)), l)
    ]

get_header-length :
    (bs rest : List ℕ) (h : MeshHeader)
    → get_header bs ≡ some (h, rest)
    → length bs ≡ 10 + length rest
unfolding get_header
get_header-length (m0 ∷ m1 ∷ m2 ∷ m3 ∷ v ∷ t ∷ l3 ∷ l2 ∷ l1 ∷ l0 ∷ bs) rest h e = ground arith
get_header-length [] rest h e = cc
get_header-length (_ ∷ []) rest h e = cc
get_header-length (_ ∷ _ ∷ []) rest h e = cc
get_header-length (_ ∷ _ ∷ _ ∷ []) rest h e = cc
get_header-length (_ ∷ _ ∷ _ ∷ _ ∷ []) rest h e = cc
get_header-length (_ ∷ _ ∷ _ ∷ _ ∷ _ ∷ []) rest h e = cc
get_header-length (_ ∷ _ ∷ _ ∷ _ ∷ _ ∷ _ ∷ []) rest h e = cc
get_header-length (_ ∷ _ ∷ _ ∷ _ ∷ _ ∷ _ ∷ _ ∷ []) rest h e = cc
get_header-length (_ ∷ _ ∷ _ ∷ _ ∷ _ ∷ _ ∷ _ ∷ _ ∷ []) rest h e = cc
get_header-length (_ ∷ _ ∷ _ ∷ _ ∷ _ ∷ _ ∷ _ ∷ _ ∷ _ ∷ []) rest h e = cc

parsed_length :
    (h : MeshHeader) (r buf rest : List ℕ) (t : ℕ)
    → read_parsed (some (h, r)) ≡ message t buf rest
    → length rest ≤ length r
unfolding read_parsed read_body
parsed_length h r buf rest t e = ground (arith, length-drop h.payload_len r)

-- A message that is read takes its header off the stream.
pub read_message-length :
    (bs buf rest : List ℕ) (t : ℕ)
    → read_message bs ≡ message t buf rest
    → 10 + length rest ≤ length bs
read_message-length bs buf rest t e = elim (Option-cases (get_header bs)) [
  | inl n ↦ absurd (read_parsed-none t buf rest (sym (ap read_parsed n) ∙ e))
  | inr (hr, g) ↦
      let shorter = parsed_length hr.0 hr.1 buf rest t (sym (ap read_parsed g) ∙ e) in
      omega (arith, shorter, get_header-length bs hr.1 hr.0 g)
]

-- A header without its payload is no message.
pub read_message-header :
    (t : ℕ) (buf : List ℕ)
    → 0 < length buf
    → length buf < 4294967296
    → read_message (put_header (header_of t buf)) ≡ failed read_payload
read_message-header t buf n b =
    ap read_message (sym (append-nil (put_header (header_of t buf)))) ∙ read_message-cut t 0 buf b n
