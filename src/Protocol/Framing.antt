-- ===== src/Protocol/Framing.antt =====
-- The length in front of a message.
use daw_project.Common.{
  ℕ, zero, suc, ◌+◌, ◌*◌, ◌/◌, ◌%◌, ◌^◌, ◌<◌, ◌≡◌, ◌≢◌, refl, arith, none, some, List, [], ◌∷◌,
  ◌++◌, length, take, ◌>>=◌, length-append, length-take,
}
use daw_project.Protocol.{Payloads, Codec, set_uint32, frame, unframe, classify, decode_message}

read_back :
    (n : ℕ)
    → n < 2 ^ 32
    → n / 2 ^ 24 % 256 * 2 ^ 24 + n / 2 ^ 16 % 256 * 2 ^ 16 + n / 2 ^ 8 % 256 * 2 ^ 8 + n % 256 ≡ n
read_back n h = omega arith

-- Bytes behind a length that is, or is not, theirs.
unframe-exact :
    (n : ℕ) (rest : List ℕ)
    → n < 2 ^ 32
    → n ≡ length rest
    → 0 < length rest
    → unframe (set_uint32 n ++ rest) ≡ some rest
unfolding unframe set_uint32
unframe-exact n rest h e k = ground (arith, read_back n h)

unframe-mismatch :
    (n : ℕ) (rest : List ℕ) → n < 2 ^ 32 → n ≢ length rest → unframe (set_uint32 n ++ rest) ≡ none
unfolding unframe set_uint32
unframe-mismatch n rest h e = ground (arith, read_back n h)

unframe-short : (bytes : List ℕ) → length bytes < 5 → unframe bytes ≡ none
unfolding unframe
unframe-short bytes h = ground arith

unframe-take :
    (p : List ℕ) (k : ℕ)
    → length p < 2 ^ 32
    → k < length (frame p)
    → unframe (take k (frame p)) ≡ none
unfolding frame set_uint32
unframe-take p zero h l = unframe-short [] (omega arith)
unframe-take p (suc zero) h l = unframe-short (take 1 (frame p)) (omega arith)
unframe-take p (suc (suc zero)) h l = unframe-short (take 2 (frame p)) (omega arith)
unframe-take p (suc (suc (suc zero))) h l = unframe-short (take 3 (frame p)) (omega arith)
unframe-take p (suc (suc (suc (suc j)))) h l =
    unframe-mismatch (length p) (take j p) h (omega (arith, length-take j p))

unframe-extra :
    (p : List ℕ) (b : ℕ) (more : List ℕ) → length p < 2 ^ 32 → unframe (frame p ++ b ∷ more) ≡ none
unfolding frame set_uint32
unframe-extra p b more h =
    unframe-mismatch (length p) (p ++ b ∷ more) h (omega (arith, length-append p (b ∷ more)))

module _ {P : Payloads} (codec : Codec P) where
  -- Of the bytes of a message, at least one and fewer than 2^32, framed as the client frames them,
  -- the decoder gives the codec exactly those bytes, and classifies what it reads.
  decode_message-frame :
      (payload : List ℕ)
      → 0 < length payload
      → length payload < 2 ^ 32
      → decode_message codec (frame payload) ≡ (codec.decode payload >>= classify)
  unfolding decode_message frame
  decode_message-frame payload h k = rw (unframe-exact (length payload) payload k refl h) refl

  -- A framed message that is cut anywhere, or that has a byte too many, is refused whatever the codec
  -- would read: the decoder returns null.
  decode_message-damaged :
      (payload : List ℕ) (k b : ℕ) (more : List ℕ)
      → length payload < 2 ^ 32
      → k < length (frame payload)
      → (decode_message codec (take k (frame payload)) ≡ none)
        × (decode_message codec (frame payload ++ b ∷ more) ≡ none)
  unfolding decode_message
  decode_message-damaged payload k b more h l =
      (rw (unframe-take payload k h l) refl, rw (unframe-extra payload b more h) refl)

  -- Of the bytes of a message, at least one and fewer than 2^32, framed as the client frames them, the decoder
  -- gives the codec exactly those bytes, and classifies what it reads; cut anywhere, or with a byte or more too many, the frame
  -- is refused whatever the codec would read: the decoder returns null.
  pub decode_message-framed :
      (payload : List ℕ) (k b : ℕ) (more : List ℕ)
      → 0 < length payload
      → length payload < 2 ^ 32
      → k < length (frame payload)
      → (decode_message codec (frame payload) ≡ (codec.decode payload >>= classify))
        × (decode_message codec (take k (frame payload)) ≡ none)
        × (decode_message codec (frame payload ++ b ∷ more) ≡ none)
  decode_message-framed payload k b more p h l =
      let refused = decode_message-damaged payload k b more h l in
      (decode_message-frame payload p h, refused.0, refused.1)
