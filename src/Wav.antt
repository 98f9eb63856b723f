-- ===== src/Wav.antt =====
-- `encodeWav16`, web/src/app/placement.ts: a decoded sound as a WAV file of 16-bit samples. The bytes
-- stand in the order of their offsets.
pub mod Reader
pub mod ReadBack
use Prim.Native.Nat.{min}
use daw_project.Common.{ℕ, zero, suc, ◌+◌, ◌-◌, ◌*◌, ◌/◌, ◌%◌, ◌^◌, List, [], ◌∷◌, ◌++◌, length}
use daw_project.Common.Int.{ℤ, pos, negsuc, ◌-ℤ◌, ◌*ℤ◌}
use daw_project.Num.{Num, num, unit, half, clamp}
use daw_project.Mutators.Tracks.{minus_one}

-- Each frame gives the sample of a channel, `getChannelData(c)[i]`.
pub record AudioBuffer : Type 0 where
  pub number_of_channels : ℕ
  pub sample_rate : ℕ
  pub frames : List (ℕ → Num)

-- `setUint16`, `setUint32` and `setInt16`, little-endian.
unfoldable pub set_u16 : ℕ → List ℕ
set_u16 n = n % 256 ∷ n / 256 % 256 ∷ []

unfoldable pub set_u32 : ℕ → List ℕ
set_u32 n = n % 256 ∷ n / 2 ^ 8 % 256 ∷ n / 2 ^ 16 % 256 ∷ n / 2 ^ 24 % 256 ∷ []

unfoldable pub set_i16 : ℤ → List ℕ
unfolding set_u16
set_i16 (pos n) = set_u16 n
set_i16 (negsuc n) = set_u16 (65535 - n % 65536)

abbrev pub riff_tag : List ℕ
riff_tag = 82 ∷ 73 ∷ 70 ∷ 70 ∷ []

abbrev pub wave_tag : List ℕ
wave_tag = 87 ∷ 65 ∷ 86 ∷ 69 ∷ []

abbrev pub fmt_tag : List ℕ
fmt_tag = 102 ∷ 109 ∷ 116 ∷ 32 ∷ []

abbrev pub data_tag : List ℕ
data_tag = 100 ∷ 97 ∷ 116 ∷ 97 ∷ []

-- Math.round, as an integer.
round_int : Num → ℤ
round_int (pos n) = pos ((n + half) / unit)
round_int (negsuc n) = pos 0 -ℤ pos ((suc n - half + (unit - 1)) / unit)

-- The sample in 16 bits.
unfoldable pub pcm : Num → ℤ
unfolding round_int
pcm x = round_int (clamp minus_one (num 1) x *ℤ pos 32767)

-- The channels from `c` on, so many of them.
unfoldable pub channel_bytes : ℕ → ℕ → (ℕ → Num) → List ℕ
channel_bytes c zero frame = []
channel_bytes c (suc more) frame = set_i16 (pcm (frame c)) ++ channel_bytes (suc c) more frame

unfoldable pub frames_bytes : ℕ → List (ℕ → Num) → List ℕ
frames_bytes ch [] = []
frames_bytes ch (frame ∷ frames) = channel_bytes 0 ch frame ++ frames_bytes ch frames

unfoldable pub encode_wav16 : AudioBuffer → List ℕ
encode_wav16 buf =
    let ch = min 2 buf.number_of_channels in
    let size = length buf.frames * ch * 2 in
    riff_tag
    ++ (set_u32 (36 + size)
        ++ (wave_tag
            ++ (fmt_tag
                ++ (set_u32 16
                    ++ (set_u16 1
                        ++ (set_u16 ch
                            ++ (set_u32 buf.sample_rate
                                ++ (set_u32 (buf.sample_rate * ch * 2)
                                    ++ (set_u16 (ch * 2)
                                        ++ (set_u16 16
                                            ++ (data_tag
                                                ++ (set_u32 size
                                                    ++ frames_bytes ch buf.frames))))))))))))
