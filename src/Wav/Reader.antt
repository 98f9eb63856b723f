-- ===== src/Wav/Reader.antt =====
-- A reader of WAV files of 16-bit samples, which checks every tag, size and rate. It is no part of the
-- program.
use daw_project.Common.{
  ℕ, zero, suc, ◌+◌, ◌-◌, ◌*◌, ◌/◌, ◌%◌, ◌^◌, ◌≤◌, ◌<◌, ◌==◌, ◌≡◌, refl, Bool, true, false, ◌&&◌,
  Option, none, some, List, [], ◌∷◌, ◌++◌, arith, ltb, length, if◌then◌else◌, ◌>>=◌, length-append,
}
use daw_project.Common.Int.{ℤ, pos, negsuc, ◌≤ℤ◌, ◌*ℤ◌, ◌-ℤ◌}
use daw_project.Num.{Num, num, clamp_bounds}
use daw_project.Mutators.Tracks.{minus_one}
use daw_project.Wav.{
  set_u16, set_u32, set_i16, riff_tag, wave_tag, fmt_tag, data_tag, round_int, pcm, channel_bytes,
  frames_bytes,
}

-- The samples of all channels, frame after frame.
pub record Wav : Type 0 where
  pub channels : ℕ
  pub rate : ℕ
  pub samples : List ℤ

-- A field, and the bytes behind it.
unfoldable pub read_u16 : List ℕ → Option (ℕ × List ℕ)
read_u16 (a ∷ b ∷ rest) = some (a + b * 256, rest)
read_u16 _ = none

unfoldable pub read_u32 : List ℕ → Option (ℕ × List ℕ)
read_u32 (a ∷ b ∷ c ∷ d ∷ rest) = some (a + b * 2 ^ 8 + c * 2 ^ 16 + d * 2 ^ 24, rest)
read_u32 _ = none

unfoldable pub read_tag : List ℕ → List ℕ → Option (List ℕ)
read_tag (a ∷ b ∷ c ∷ d ∷ []) (e ∷ f ∷ g ∷ h ∷ rest) =
    if (a == e && b == f) && (c == g && d == h) then some rest else none
read_tag _ _ = none

-- Two's complement.
abbrev signed : ℕ → ℤ
signed n = if ltb n 32768 then pos n else negsuc (65535 - n)

unfoldable pub read_samples : List ℕ → Option (List ℤ)
read_samples [] = some []
read_samples (a ∷ []) = none
read_samples (a ∷ b ∷ rest) = do zs ← read_samples rest; some (signed (a + b * 256) ∷ zs)

unfoldable pub guard : Bool → Option Bool
guard true = some true
guard false = none

unfoldable pub read_wav : List ℕ → Option Wav
unfolding read_u16 read_u32 read_tag read_samples guard
read_wav bytes = do
  b0 ← read_tag riff_tag bytes
  (size, b1) ← read_u32 b0
  checked ← guard (size == length b1)
  b2 ← read_tag wave_tag b1
  b3 ← read_tag fmt_tag b2
  (fmt_size, b4) ← read_u32 b3
  (format, b5) ← read_u16 b4
  (channels, b6) ← read_u16 b5
  (rate, b7) ← read_u32 b6
  (byte_rate, b8) ← read_u32 b7
  (block, b9) ← read_u16 b8
  (bits, b10) ← read_u16 b9
  fields ← guard (
      (fmt_size == 16 && format == 1)
      && (bits == 16 && (block == channels * 2 && byte_rate == rate * block)))
  b11 ← read_tag data_tag b10
  (data_size, b12) ← read_u32 b11
  whole ← guard (data_size == length b12)
  samples ← read_samples b12
  some (record { channels = channels; rate = rate; samples = samples })

pub read_u16-set_u16 :
    (n : ℕ) (rest : List ℕ) → n < 2 ^ 16 → read_u16 (set_u16 n ++ rest) ≡ some (n, rest)
unfolding read_u16 set_u16
read_u16-set_u16 n rest h = ground arith

pub read_u32-set_u32 :
    (n : ℕ) (rest : List ℕ) → n < 2 ^ 32 → read_u32 (set_u32 n ++ rest) ≡ some (n, rest)
unfolding read_u32 set_u32
read_u32-set_u32 n rest h = ground arith

-- Within 16 bits, and never the least of them.
pub pcm_bounds : (x : Num) → (negsuc 32766 ≤ℤ pcm x) × (pcm x ≤ℤ pos 32767)
unfolding pcm round_int ◌*ℤ◌ ◌-ℤ◌
pcm_bounds x = ground (arith, clamp_bounds minus_one (num 1) x)

two_bytes : (n : ℕ) → n < 2 ^ 16 → n % 256 + n / 256 % 256 * 256 ≡ n
two_bytes n h = omega arith

signed-low : (n : ℕ) → n ≤ 32767 → signed n ≡ pos n
signed-low n h = ground arith

signed-high : (n : ℕ) → n ≤ 32766 → signed (65535 - n % 65536) ≡ negsuc n
signed-high n h = let e : n % 65536 ≡ n = omega arith in rw e (ground arith)

pub read_sample :
    (z : ℤ) (rest : List ℕ)
    → negsuc 32766 ≤ℤ z
    → z ≤ℤ pos 32767
    → read_samples (set_i16 z ++ rest) ≡ (read_samples rest >>= λ zs. some (z ∷ zs))
unfolding read_samples set_i16 set_u16
read_sample (pos n) rest h k = rw (two_bytes n (omega arith), signed-low n (omega arith)) refl
read_sample (negsuc n) rest h k =
    rw (two_bytes (65535 - n % 65536) (omega arith), signed-high n (omega arith)) refl

length-set_i16 : (z : ℤ) → length (set_i16 z) ≡ 2
unfolding set_i16 set_u16
length-set_i16 (pos n) = refl
length-set_i16 (negsuc n) = refl

length-channel_bytes : (c ch : ℕ) (frame : ℕ → Num) → length (channel_bytes c ch frame) ≡ ch * 2
unfolding channel_bytes
length-channel_bytes c zero frame = refl
length-channel_bytes c (suc more) frame = omega (
  arith,
  length-append (set_i16 (pcm (frame c))) (channel_bytes (suc c) more frame),
  length-set_i16 (pcm (frame c)),
  length-channel_bytes (suc c) more frame,
)

pub length-frames_bytes :
    (ch : ℕ) (frames : List (ℕ → Num)) → length (frames_bytes ch frames) ≡ length frames * ch * 2
unfolding frames_bytes
length-frames_bytes ch [] = omega arith
length-frames_bytes ch (frame ∷ frames) = grind (
  arith,
  length-append (channel_bytes 0 ch frame) (frames_bytes ch frames),
  length-channel_bytes 0 ch frame,
  length-frames_bytes ch frames,
)
