-- ===== src/Format/Chunks.antt =====
-- The file format by its description in README.md ("Funtrace file format"), read on its own: a
-- chunk is an 8-byte magic, a 64-bit little-endian size, and that many bytes.
use funtrace.Prelude.{
  ℕ, zero, suc, ◌^◌, ◌≤◌, ◌<◌, ◌≡◌, refl, sym, ap, ◌∙◌, false, Option, none, some, List, [], ◌∷◌,
  ◌++◌, arith, ltb, if◌then◌else◌, ◌>>=◌, length, take, drop, length-append, take-append,
  drop-append, append_assoc, All,
}
use funtrace.Format.Bytes.{le_bytes, of_le_bytes, length-le_bytes, of_le_bytes-le_bytes}

pub record Chunk : Type 0 where
  pub magic : List ℕ
  pub content : List ℕ

-- The chunk of a magic and the bytes of a size, if there are as many bytes behind it.
read_content : List ℕ → List ℕ → List ℕ → Option (Chunk × List ℕ)
read_content magic size_bytes rest =
    let size = of_le_bytes size_bytes in
    if ltb (length rest) size
    then none
    else some (record { magic = magic; content = take size rest }, drop size rest)

-- The chunk at the front, and what follows it.
unfoldable pub read_chunk : List ℕ → Option (Chunk × List ℕ)
unfolding read_content
read_chunk bs =
    if ltb (length bs) 16
    then none
    else read_content (take 8 bs) (take 8 (drop 8 bs)) (drop 8 (drop 8 bs))

unfoldable pub read_chunks : ℕ → List ℕ → Option (List Chunk)
read_chunks fuel [] = some []
read_chunks zero (b ∷ bs) = none
read_chunks (suc fuel) (b ∷ bs) =
    read_chunk (b ∷ bs) >>= λ r. read_chunks fuel r.1 >>= λ cs. some (r.0 ∷ cs)

abbrev pub chunk_bytes : Chunk → List ℕ
chunk_bytes c = c.magic ++ (le_bytes 8 (length c.content) ++ c.content)

abbrev pub chunks_bytes : List Chunk → List ℕ
chunks_bytes [] = []
chunks_bytes (c ∷ cs) = chunk_bytes c ++ chunks_bytes cs

-- A magic of 8 bytes, and a size of 64 bits.
abbrev pub IsChunk : Chunk → Type 0
IsChunk c = (length c.magic ≡ 8) × (length c.content < 2 ^ 64)

read_content-bytes :
    (c : Chunk) (rest : List ℕ)
    → IsChunk c
    → read_content c.magic (le_bytes 8 (length c.content)) (c.content ++ rest) ≡ some (c, rest)
unfolding read_content
read_content-bytes c rest h =
    rw
      (
        size,
        take-append (length content) content rest refl,
        drop-append (length content) content rest refl,
      )
      (ground (arith, length-append content rest))
  where
    open c use {content}

    size : of_le_bytes (le_bytes 8 (length content)) ≡ length content
    size = of_le_bytes-le_bytes 8 (length content) (omega arith)

read_chunk-bytes :
    (c : Chunk) (rest : List ℕ) → IsChunk c → read_chunk (chunk_bytes c ++ rest) ≡ some (c, rest)
unfolding read_chunk
read_chunk-bytes c rest h =
    ap read_chunk joined
    ∙ rw
        (
          enough,
          take-append 8 magic (size ++ (content ++ rest)) (omega arith),
          drop-append 8 magic (size ++ (content ++ rest)) (omega arith),
          take-append 8 size (content ++ rest) (omega (arith, length-le_bytes 8 (length content))),
          drop-append 8 size (content ++ rest) (omega (arith, length-le_bytes 8 (length content))),
        )
        (read_content-bytes c rest h)
  where
    open c use {magic, content}

    size : List ℕ
    size = le_bytes 8 (length content)

    joined : chunk_bytes c ++ rest ≡ magic ++ (size ++ (content ++ rest))
    joined =
        append_assoc magic (size ++ content) rest
        ∙ ap (λ l. magic ++ l) (append_assoc size content rest)

    enough : ltb (length (magic ++ (size ++ (content ++ rest)))) 16 ≡ false
    enough = ground (
      arith,
      length-append magic (size ++ (content ++ rest)),
      length-append size (content ++ rest),
      length-le_bytes 8 (length content),
    )

-- The bytes of a chunk are some byte and more.
chunk_bytes-cons :
    (c : Chunk) (rest : List ℕ)
    → IsChunk c
    → (b : ℕ) × (bs : List ℕ) × (chunk_bytes c ++ rest ≡ b ∷ bs)
chunk_bytes-cons c rest h = front c.magic refl
  where
    front : (m : List ℕ) → c.magic ≡ m → (b : ℕ) × (bs : List ℕ) × (chunk_bytes c ++ rest ≡ b ∷ bs)
    front [] e = absurd (omega (arith, h.0, ap length e))
    front (b ∷ m) e = (
      b,
      (m ++ (le_bytes 8 (length c.content) ++ c.content)) ++ rest,
      ap (λ l. (l ++ (le_bytes 8 (length c.content) ++ c.content)) ++ rest) e,
    )

-- Reading back the bytes of well-formed chunks gives the chunks.
pub read_chunks-bytes :
    (fuel : ℕ) (cs : List Chunk)
    → length cs ≤ fuel
    → All IsChunk cs
    → read_chunks fuel (chunks_bytes cs) ≡ some cs
unfolding read_chunks
read_chunks-bytes zero [] h w = refl
read_chunks-bytes (suc fuel) [] h w = refl
read_chunks-bytes zero (c ∷ cs) h w = absurd (omega arith)
read_chunks-bytes (suc fuel) (c ∷ cs) h w =
    let (b, bs, e) = chunk_bytes-cons c (chunks_bytes cs) w.0 in
    ap (read_chunks (suc fuel)) e
    ∙ ap (λ r. r >>= λ r. read_chunks fuel r.1 >>= λ cs. some (r.0 ∷ cs))
        (ap read_chunk (sym e) ∙ read_chunk-bytes c (chunks_bytes cs) w.0)
    ∙ ap (λ r. r >>= λ cs. some (c ∷ cs)) (read_chunks-bytes fuel cs (omega arith) w.1)

pub chunks_bytes-append :
    (cs ds : List Chunk) → chunks_bytes (cs ++ ds) ≡ chunks_bytes cs ++ chunks_bytes ds
chunks_bytes-append [] ds = refl
chunks_bytes-append (c ∷ cs) ds =
    ap (λ l. chunk_bytes c ++ l) (chunks_bytes-append cs ds)
    ∙ sym (append_assoc (chunk_bytes c) (chunks_bytes cs) (chunks_bytes ds))
