-- ===== src/Wav/ReadBack.antt =====
-- What the reader finds in the file of a sound.
use Prim.Native.Nat.{min}
use daw_project.Common.{
  ℕ, zero, suc, ◌+◌, ◌-◌, ◌*◌, ◌^◌, ◌≤◌, ◌<◌, ◌==◌, ◌≡◌, refl, true, some, List, [], ◌∷◌, ◌++◌,
  arith, length, All,
}
use mathlib.Core.List.{append_assoc}
use native.Mathlib.Nat.{mul_assoc}
use daw_project.Common.Int.{ℤ, pos, negsuc, ◌≤ℤ◌}
use daw_project.Num.{Num}
use daw_project.Wav.{
  AudioBuffer, set_u16, set_u32, set_i16, riff_tag, wave_tag, fmt_tag, data_tag, pcm, channel_bytes,
  frames_bytes, encode_wav16,
}
use daw_project.Wav.Reader.{
  read_tag, read_samples, guard, read_wav, read_u16-set_u16, read_u32-set_u32, pcm_bounds,
  read_sample, length-frames_bytes,
}

-- The samples of a sound in 16 bits, frame after frame, of each frame the channels in order.
abbrev pub channel_samples : ℕ → ℕ → (ℕ → Num) → List ℤ
channel_samples c zero frame = []
channel_samples c (suc more) frame = pcm (frame c) ∷ channel_samples (suc c) more frame

abbrev pub frames_samples : ℕ → List (ℕ → Num) → List ℤ
frames_samples ch [] = []
frames_samples ch (frame ∷ frames) = channel_samples 0 ch frame ++ frames_samples ch frames

read_channel_bytes :
    (c ch : ℕ) (frame : ℕ → Num) (rest : List ℕ) (zs : List ℤ)
    → read_samples rest ≡ some zs
    → read_samples (channel_bytes c ch frame ++ rest) ≡ some (channel_samples c ch frame ++ zs)
unfolding channel_bytes
read_channel_bytes c zero frame rest zs h = h
read_channel_bytes c (suc more) frame rest zs h =
    let b = pcm_bounds (frame c) in
    rw
      (
        append_assoc (set_i16 (pcm (frame c))) (channel_bytes (suc c) more frame) rest,
        read_sample (pcm (frame c)) (channel_bytes (suc c) more frame ++ rest) b.0 b.1,
        read_channel_bytes (suc c) more frame rest zs h,
      )
      refl

read_frames_bytes :
    (ch : ℕ) (frames : List (ℕ → Num))
    → read_samples (frames_bytes ch frames) ≡ some (frames_samples ch frames)
unfolding frames_bytes read_samples
read_frames_bytes ch [] = refl
read_frames_bytes ch (frame ∷ frames) =
    read_channel_bytes 0 ch frame (frames_bytes ch frames) (frames_samples ch frames)
      (read_frames_bytes ch frames)

==_same : (i j : ℕ) → i ≡ j → (i == j) ≡ true
==_same i j h = ground arith

module _ (ch rate size : ℕ) (rest : List ℕ) where
  abbrev whole_file : List ℕ
  whole_file =
      riff_tag
      ++ (set_u32 (36 + size)
          ++ (wave_tag
              ++ (fmt_tag
                  ++ (set_u32 16
                      ++ (set_u16 1
                          ++ (set_u16 ch
                              ++ (set_u32 rate
                                  ++ (set_u32 (rate * ch * 2)
                                      ++ (set_u16 (ch * 2)
                                          ++ (set_u16 16
                                              ++ (data_tag ++ (set_u32 size ++ rest))))))))))))

  length-riff_body :
      length (
        wave_tag
        ++ (fmt_tag
            ++ (set_u32 16
                ++ (set_u16 1
                    ++ (set_u16 ch
                        ++ (set_u32 rate
                            ++ (set_u32 (rate * ch * 2)
                                ++ (set_u16 (ch * 2)
                                    ++ (set_u16 16 ++ (data_tag ++ (set_u32 size ++ rest)))))))))))
      ≡ 36 + length rest
  unfolding set_u16 set_u32
  length-riff_body = omega arith

  read_whole_file :
      (zs : List ℤ)
      → ch ≤ 2
      → rate < 2 ^ 32
      → rate * ch * 2 < 2 ^ 32
      → 36 + size < 2 ^ 32
      → length rest ≡ size
      → read_samples rest ≡ some zs
      → read_wav whole_file ≡ some (record { channels = ch; rate = rate; samples = zs })
  unfolding read_wav read_tag guard
  read_whole_file zs l r b n e h =
      rw
        (
          read_u32-set_u32 (36 + size) _ n,
          length-riff_body,
          ==_same (36 + size) (36 + length rest) (omega arith),
          read_u32-set_u32 16 _ (omega arith),
          read_u16-set_u16 1 _ (omega arith),
          read_u16-set_u16 ch _ (omega arith),
          read_u32-set_u32 rate _ r,
          read_u32-set_u32 (rate * ch * 2) _ b,
          read_u16-set_u16 (ch * 2) _ (omega arith),
          read_u16-set_u16 16 _ (omega arith),
          ==_same (ch * 2) (ch * 2) refl,
          ==_same (rate * ch * 2) (rate * (ch * 2)) (mul_assoc rate ch 2),
          read_u32-set_u32 size _ (omega arith),
          ==_same size (length rest) (omega arith),
          h,
        )
        refl

times_channels : (n ch : ℕ) → ch ≤ 2 → n * ch * 2 ≤ n * 4
times_channels n zero h = omega arith
times_channels n (suc zero) h = omega arith
times_channels n (suc (suc zero)) h = omega arith
times_channels n (suc (suc (suc ch))) h = absurd (omega arith)

-- The file of a sound, of fewer than 2^30 - 9 frames and a sample rate below 2^30, reads back: a reader
-- that checks every tag, size and rate finds the first two channels, or the one, the sample rate, and of
-- every frame the samples in 16 bits.
pub read_wav-encode_wav16 :
    (buf : AudioBuffer)
    → length buf.frames < 2 ^ 30 - 9
    → buf.sample_rate < 2 ^ 30
    → read_wav (encode_wav16 buf)
      ≡ some (record {
        channels = min 2 buf.number_of_channels;
        rate = buf.sample_rate;
        samples = frames_samples (min 2 buf.number_of_channels) buf.frames;
      })
unfolding encode_wav16
read_wav-encode_wav16 buf l r =
    let ch = min 2 buf.number_of_channels in
    let few : ch ≤ 2 = omega arith in
    let bound = times_channels (length buf.frames) ch few in
    let rates = times_channels buf.sample_rate ch few in
    read_whole_file ch buf.sample_rate (length buf.frames * ch * 2) (frames_bytes ch buf.frames)
      (frames_samples ch buf.frames) few (omega arith) (omega arith) (omega arith)
      (length-frames_bytes ch buf.frames) (read_frames_bytes ch buf.frames)

abbrev In16 : ℤ → Type 0
In16 z = (negsuc 32766 ≤ℤ z) × (z ≤ℤ pos 32767)

All-channel_samples :
    (c ch : ℕ) (frame : ℕ → Num) (zs : List ℤ)
    → All In16 zs
    → All In16 (channel_samples c ch frame ++ zs)
All-channel_samples c zero frame zs h = h
All-channel_samples c (suc more) frame zs h =
    (pcm_bounds (frame c), All-channel_samples (suc c) more frame zs h)

-- Whatever the sound, also beyond full scale, every sample that is written is from -32767 to 32767, so
-- that none wraps around in its two bytes.
pub frames_samples-bounds :
    (ch : ℕ) (frames : List (ℕ → Num))
    → All (λ z. (negsuc 32766 ≤ℤ z) × (z ≤ℤ pos 32767)) (frames_samples ch frames)
frames_samples-bounds ch [] = tt
frames_samples-bounds ch (frame ∷ frames) =
    All-channel_samples 0 ch frame (frames_samples ch frames) (frames_samples-bounds ch frames)
