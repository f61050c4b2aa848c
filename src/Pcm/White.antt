-- ===== src/Pcm/White.antt =====
-- `GetWhite` of the PCM encoders: the frame that stands in for lost packets.
use codec_single_thread.Pcm.{en_get_white, ulaw_decode, alaw_decode}
use codec_single_thread.Base.{
  ◌∷◌, negsuc, some, zero, suc, refl, ℕ, List, ℤ, ◌≤◌, map, length, replicate, ◌≡◌, ap, take,
  overwrite, arith, sym, length-replicate, ◌∙◌, take-overwrite,
}

map-replicate : (f : ℕ → ℤ) (n c : ℕ) → map f (replicate n c) ≡ replicate n (f c)
map-replicate f zero c = refl
map-replicate f (suc n) c = ap (λ (xs : List ℤ). f c ∷ xs) (map-replicate f n c)

en_get_white-run :
    (output : List ℕ) (frames : ℕ)
    → frames ≤ length output
    → en_get_white output (length output) frames
      ≡ (some frames, overwrite (replicate frames 0) output)
unfolding en_get_white
en_get_white-run output frames room = ground arith

white_taken :
    (output : List ℕ) (frames : ℕ)
    → frames ≤ length output
    → take frames (overwrite (replicate frames 0) output) ≡ replicate frames 0
white_taken output frames room =
    ap (λ (n : ℕ). take n (overwrite (replicate frames 0) output))
      (sym (length-replicate {A = ℕ} frames 0))
    ∙ take-overwrite (replicate frames 0) output (omega (arith, length-replicate {A = ℕ} frames 0))

-- The white frame is no silence. With room for it, `GetWhite` returns one byte for each frame asked
-- for, and the decoder of its law makes of each the sample -32124 (mu-law) or -5504 (A-law).
pub en_get_white_loud :
    (output : List ℕ) (frames : ℕ)
    → frames ≤ length output
    → let (r, output') = en_get_white output (length output) frames in
      (r ≡ some frames)
      × (map ulaw_decode (take frames output') ≡ replicate frames (negsuc 32123))
      × (map alaw_decode (take frames output') ≡ replicate frames (negsuc 5503))
unfolding ulaw_decode alaw_decode
en_get_white_loud output frames room =
    rw (en_get_white-run output frames room, white_taken output frames room)
      (refl, map-replicate ulaw_decode frames 0, map-replicate alaw_decode frames 0)
