-- ===== src/Examples/Bytes.antt =====
-- Examples on bytes.
use jvm_toxcore_c.Base.{◌*◌, ◌≡◌, refl, List, [], ◌∷◌, ℤ, pos, negsuc, length}
use jvm_toxcore_c.ToBytes.{to_bytes, to_bytes_i16, samples, samples-to_bytes}

-- 300, -2 and -32768
abbrev pcm : List ℤ
pcm = pos 300 ∷ negsuc 1 ∷ negsuc 32767 ∷ []

pcm_bytes : to_bytes to_bytes_i16 pcm ≡ 1 ∷ 44 ∷ 255 ∷ 254 ∷ 128 ∷ 0 ∷ []
unfolding to_bytes to_bytes_i16
pcm_bytes = refl

samples-to_bytes_example :
    (samples (to_bytes to_bytes_i16 pcm) ≡ pcm) × (length (to_bytes to_bytes_i16 pcm) ≡ 2 * 3)
samples-to_bytes_example = samples-to_bytes pcm (refl, (refl, (refl, tt)))
