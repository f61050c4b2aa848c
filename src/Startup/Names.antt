-- ===== src/Startup/Names.antt =====
-- The names of the coders, as `StringToType` reads them.
use codec_single_thread.Startup.{same_text, string_to_type, is_err, codes}
use codec_single_thread.Session.Setup.{CodecType, amr_wb, codec2, pcm_a, pcm_u, unknown}
use codec_single_thread.Base.{
  ℕ, ◌≡◌, refl, ap, ◌∙◌, ◌↔◌, ◌⊎◌, inl, inr, arith, true, false, List, [], ◌∷◌,
}

same_text_sound : (s t : List ℕ) → same_text s t ≡ true → s ≡ t
unfolding same_text
same_text_sound [] [] h = refl
same_text_sound [] (d ∷ t) h = ground (arith, h)
same_text_sound (c ∷ s) [] h = ground (arith, h)
same_text_sound (c ∷ s) (d ∷ t) h = ground (arith, same_text_sound s t, h)

-- The two spellings of each coder.
abbrev pub small : CodecType → List ℕ
small amr_wb = codes "amr"
small codec2 = codes "codec2"
small pcm_a = codes "PCMA"
small pcm_u = codes "PCMU"
small unknown = []

abbrev pub large : CodecType → List ℕ
large amr_wb = codes "AMR"
large codec2 = codes "Codec2"
large pcm_a = codes "PcmA"
large pcm_u = codes "PcmU"
large unknown = []

spelled :
    (s : List ℕ) (t : CodecType)
    → is_err t ≡ false
    → string_to_type s ≡ t
    → (s ≡ small t) ⊎ (s ≡ large t)
unfolding string_to_type is_err
spelled s t known h = ground (
  arith,
  same_text_sound s (codes "amr"),
  same_text_sound s (codes "AMR"),
  same_text_sound s (codes "codec2"),
  same_text_sound s (codes "Codec2"),
  same_text_sound s (codes "PCMA"),
  same_text_sound s (codes "PcmA"),
  same_text_sound s (codes "PCMU"),
  same_text_sound s (codes "PcmU"),
)

both_read :
    (t : CodecType)
    → is_err t ≡ false
    → (string_to_type (small t) ≡ t) × (string_to_type (large t) ≡ t)
unfolding string_to_type is_err
both_read amr_wb known = (refl, refl)
both_read codec2 known = (refl, refl)
both_read pcm_a known = (refl, refl)
both_read pcm_u known = (refl, refl)
both_read unknown known = ground (arith, known)

-- `StringToType` gives the type of a coder exactly for the two spellings of its name.
pub string_to_type_lem :
    (s : List ℕ) (t : CodecType)
    → is_err t ≡ false
    → (string_to_type s ≡ t) ↔ ((s ≡ small t) ⊎ (s ≡ large t))
string_to_type_lem s t known = (
  spelled s t known,
  λ h. elim h [
    | inl e ↦ ap string_to_type e ∙ (both_read t known).0
    | inr e ↦ ap string_to_type e ∙ (both_read t known).1
  ],
)
