-- ===== src/Codec2/Tests.antt =====
-- Runs of the Codec2 coders over a stand-in library, and their theorems at it.
use codec_single_thread.Codec2.{en_codec, en_get_white, code_frames}
use codec_single_thread.Codec2.Stream.{coded, Sized, code_frames-coded}
use codec_single_thread.Base.{
  [], ◌∷◌, some, none, refl, Option, List, replicate, ◌≡◌, ℕ, overwrite, get_or, ◌++◌, arith, ◌+◌,
}

-- A coder that counts its frames, and puts the count and the first byte into each code.
abbrev encode : Option ℕ → List ℕ → Option ℕ × List ℕ
encode none x = (none, replicate 6 0)
encode (some n) x = (some (n + 1), n ∷ get_or x 0 0 ∷ replicate 4 0)

abbrev decode : Option ℕ → List ℕ → Option ℕ × List ℕ
decode st x = (st, get_or x 1 0 ∷ replicate 319 0)

encode-Sized : Sized encode 6
encode-Sized none x = refl
encode-Sized (some n) x = refl

decode-Sized : Sized decode 320
decode-Sized st x = refl

-- Two frames, of fives and of sixes.
abbrev speech : List ℕ
speech = replicate 320 5 ++ replicate 320 6

two_frames :
    en_codec encode (some 0) (some speech) (some (replicate 13 9)) 13
    ≡ (some 12, some 2, some (0 ∷ 5 ∷ 0 ∷ 0 ∷ 0 ∷ 0 ∷ 1 ∷ 6 ∷ 0 ∷ 0 ∷ 0 ∷ 0 ∷ 9 ∷ []))
unfolding en_codec
two_frames = refl

null_input : (en_codec encode (some 0) none (some []) 0).0 ≡ none
unfolding en_codec
null_input = refl

white : (en_get_white encode (some 4) (replicate 6 9) 6 1).2 ≡ 4 ∷ replicate 5 0
unfolding en_get_white
white = refl

code_frames-coded_example : code_frames encode 320 6 (some 0) speech (replicate 13 9) 13 ≡ (
  some 12,
  (coded encode 320 2 (some 0) speech).0,
  overwrite (coded encode 320 2 (some 0) speech).1 (replicate 13 9),
)
code_frames-coded_example =
    code_frames-coded encode 320 6 (some 0) speech (replicate 13 9) encode-Sized (omega arith)
      (omega arith)
