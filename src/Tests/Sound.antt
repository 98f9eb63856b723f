-- ===== src/Tests/Sound.antt =====
-- Instances of the theorems on the WAV encoder at a concrete sound.
use Prim.Native.Nat.{min}
use daw_project.Common.{ℕ, zero, suc, ◌*◌, ◌≡◌, some, [], ◌∷◌, All, arith}
use daw_project.Common.Int.{pos, negsuc, ◌≤ℤ◌}
use daw_project.Num.{Num, num, half}
use daw_project.Wav.{AudioBuffer, encode_wav16}
use daw_project.Wav.Reader.{read_wav}
use daw_project.Wav.ReadBack.{frames_samples, read_wav-encode_wav16, frames_samples-bounds}

-- Half scale and beyond it on the left, silence on the right.
abbrev left : Num → ℕ → Num
left x c = elim c [ zero ↦ x | suc _ ↦ num 0 ]

abbrev sound : AudioBuffer
sound = record {
  number_of_channels = 2;
  sample_rate = 48000;
  frames = left (pos half) ∷ left (negsuc (3 * half)) ∷ [];
}

read_wav-encode_wav16_example :
    read_wav (encode_wav16 sound)
    ≡ some (record {
      channels = min 2 2;
      rate = 48000;
      samples = frames_samples (min 2 2) sound.frames;
    })
read_wav-encode_wav16_example = read_wav-encode_wav16 sound (omega arith) (omega arith)

frames_samples-bounds_example :
    All (λ z. (negsuc 32766 ≤ℤ z) × (z ≤ℤ pos 32767)) (frames_samples 2 sound.frames)
frames_samples-bounds_example = frames_samples-bounds 2 sound.frames
