-- ===== src/Pcm/InPlace.antt =====
-- `PcmAEnCoder::Codec` over a whole buffer, and what it does to its input.
use mathlib.Core.Path.{subst}
use codec_single_thread.Pcm.{
  speech, alaw_magnitude, alaw_encode, alaw_loop, alaw_en_codec, AlawRun, code, List, ℤ, ℕ,
}
use codec_single_thread.Pcm.Alaw.{alaw_error}
use codec_single_thread.Base.{
  List, ℕ, map, FitsInt16, signed16, ◌<◌, AllBytes, ◌≡◌, pos, signed16-Fits, none, ◌∷◌, ◌^◌, ◌+◌,
  negsuc, length, store16, ◌*◌, arith, sym, ◌/◌, ◌++◌, [], refl, byte, ap, some, ◌≤◌, ◌∙◌, take,
  take-overwrite, overwrite, suc, ◌-◌,
}

-- Codes that stand for samples, one for one.
abbrev pub Encodes : List ℤ → List ℕ → Type 0
Encodes [] [] = Unit
Encodes [] (c ∷ cs) = ⊥
Encodes (x ∷ xs) [] = ⊥
Encodes (x ∷ xs) (c ∷ cs) = (alaw_encode x ≡ code c) × Encodes xs cs

-- What is left of a sample x: x itself where it is not negative, and otherwise -x - 8, cut off at 0.
abbrev pub lowered : ℤ → ℤ
lowered (pos n) = pos n
lowered (negsuc n) = pos (suc n - 8)

abbrev pub stripped : List ℤ → List ℤ
stripped xs = map lowered xs

lowered_lem : (x : ℤ) → pos (alaw_magnitude x) ≡ lowered x
unfolding alaw_magnitude
lowered_lem (pos n) = refl
lowered_lem (negsuc n) = ap pos (omega arith)

alaw_magnitude-lt : (x : ℤ) → FitsInt16 x → alaw_magnitude x < 2 ^ 15
unfolding alaw_magnitude
alaw_magnitude-lt (pos n) h = h
alaw_magnitude-lt (negsuc n) h = omega arith

abbrev sample_of : ℕ → ℕ → ℤ
sample_of lo hi = signed16 (lo + hi * 2 ^ 8)

sample_of-Fits : (lo hi : ℕ) → lo < 256 → hi < 256 → FitsInt16 (sample_of lo hi)
sample_of-Fits lo hi h k = signed16-Fits (lo + hi * 2 ^ 8) (omega arith)

record Ran (input : List ℕ) (run : AlawRun) : Type 0 where
  completed : run.early ≡ none
  coded : Encodes (speech input) run.codes
  count : length run.codes ≡ length input / 2
  overwritten : speech run.input ≡ stripped (speech input)
  same_length : length run.input ≡ length input

alaw_loop-step :
    (lo hi c : ℕ) (rest : List ℕ)
    → alaw_encode (sample_of lo hi) ≡ code c
    → let after = alaw_loop rest in
      alaw_loop (lo ∷ hi ∷ rest) ≡ record after {
        codes = c ∷ after.codes;
        input = store16 (alaw_magnitude (sample_of lo hi)) ++ after.input;
      }
unfolding alaw_loop
alaw_loop-step lo hi c rest e = ground arith

speech-stored : (m : ℕ) (ys : List ℕ) → m < 2 ^ 15 → speech (store16 m ++ ys) ≡ pos m ∷ speech ys
unfolding speech
speech-stored m ys h = ap (λ x. x ∷ speech ys) (signed16-stored m h)
  where
    signed16-stored : (m : ℕ) → m < 2 ^ 15 → signed16 (byte m 0 + byte m 1 * 2 ^ 8) ≡ pos m
    signed16-stored m h = ground arith

alaw_loop-Ran : (input : List ℕ) → AllBytes input → Ran input (alaw_loop input)
unfolding speech alaw_loop
alaw_loop-Ran [] h = record {
  completed = refl;
  coded = tt;
  count = refl;
  overwritten = refl;
  same_length = refl;
}
alaw_loop-Ran (b ∷ []) h = record {
  completed = refl;
  coded = tt;
  count = refl;
  overwritten = refl;
  same_length = refl;
}
alaw_loop-Ran (lo ∷ hi ∷ rest) h =
    let x : ℤ = sample_of lo hi in
    let fits = sample_of-Fits lo hi h.0 h.1.0 in
    let c = alaw_error x fits in
    let ih = alaw_loop-Ran rest h.1.1 in
    subst (Ran (lo ∷ hi ∷ rest)) (sym (alaw_loop-step lo hi c.0 rest c.1)) (record {
      completed = ih.completed;
      coded = (c.1, ih.coded);
      count = omega (arith, ih.count);
      overwritten =
          speech-stored (alaw_magnitude x) (alaw_loop rest).input (alaw_magnitude-lt x fits)
          ∙ ap (λ (ys : List ℤ). pos (alaw_magnitude x) ∷ ys) ih.overwritten
          ∙ ap (λ (y : ℤ). y ∷ stripped (speech rest)) (lowered_lem x);
      same_length = omega (arith, ih.same_length);
    })

alaw_en_codec-run :
    (input output : List ℕ)
    → length input / 2 ≤ length output
    → (alaw_loop input).early ≡ none
    → alaw_en_codec input output (length output)
      ≡ (some (length input / 2), overwrite (alaw_loop input).codes output, (alaw_loop input).input)
unfolding alaw_en_codec
alaw_en_codec-run input output room e = ground arith

-- On a buffer of bytes, with room for the codes, the A-law encoder never leaves its loop early: it
-- returns one code for each sample. It also writes over its input: there each sample x stays as it is
-- where it is not negative, and is replaced by -x - 8, cut off at 0, where it is.
pub alaw_en_codec_lem :
    (input output : List ℕ)
    → AllBytes input
    → length input / 2 ≤ length output
    → let (r, output', input') = alaw_en_codec input output (length output) in
      (r ≡ some (length input / 2))
      × Encodes (speech input) (take (length input / 2) output')
      × (speech input' ≡ stripped (speech input))
      × (length input' ≡ length input)
alaw_en_codec_lem input output bytes room =
    let ran = alaw_loop-Ran input bytes in
    let codes : List ℕ = (alaw_loop input).codes in
    let back : take (length input / 2) (overwrite codes output) ≡ codes =
      ap (λ (n : ℕ). take n (overwrite codes output)) (sym ran.count)
      ∙ take-overwrite codes output (omega (arith, ran.count)) in
    rw (alaw_en_codec-run input output room ran.completed)
      (refl, subst (Encodes (speech input)) (sym back) ran.coded, ran.overwritten, ran.same_length)
