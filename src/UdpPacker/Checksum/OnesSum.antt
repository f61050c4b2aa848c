-- ===== src/UdpPacker/Checksum/OnesSum.antt =====
-- `CheckSum` and `UdpChecksum` against the checksum of RFC 1071: the complement of the ones' complement
-- sum of the 16-bit words.
use codec_single_thread.UdpPacker.{
  fold_carries, words_sum, whole_sum, complement16, check_sum, udp_checksum,
}
use codec_single_thread.Base.{
  ℕ, ◌+◌, ◌-◌, ◌*◌, ◌%◌, ◌^◌, ◌<◌, ◌≡◌, refl, ap, ◌∙◌, arith, List, [], ◌∷◌, leb, if◌then◌else◌,
  All, ◌==◌, AllBytes, ◌++◌, ◌≤◌, sym, length,
}

-- Ones' complement addition: the carry goes back in at the bottom.
pub ones_add : ℕ → ℕ → ℕ
ones_add a b = if leb (2 ^ 16) (a + b) then a + b - (2 ^ 16 - 1) else a + b

pub ones_sum : List ℕ → ℕ
unfolding ones_add
ones_sum [] = 0
ones_sum (w ∷ ws) = ones_add w (ones_sum ws)

-- The words of a buffer, an odd last byte with a zero byte behind it.
pub words : List ℕ → List ℕ
words (lo ∷ hi ∷ rest) = (lo + hi * 2 ^ 8) ∷ words rest
words (b ∷ []) = b ∷ []
words [] = []

-- The whole words of a buffer.
pub whole_words : List ℕ → List ℕ
whole_words (lo ∷ hi ∷ rest) = (lo + hi * 2 ^ 8) ∷ whole_words rest
whole_words (b ∷ []) = []
whole_words [] = []

-- The plain sum, and what it is modulo 65535, with 65535 for the multiples that are not 0.
abbrev total : List ℕ → ℕ
total [] = 0
total (w ∷ ws) = w + total ws

residue : ℕ → ℕ
residue n = if n == 0 then 0 else (n - 1) % 65535 + 1

residue-lt : (n : ℕ) → residue n < 2 ^ 16
unfolding residue
residue-lt n = ground arith

ones_add-residue : (a n : ℕ) → a < 2 ^ 16 → ones_add a (residue n) ≡ residue (a + n)
unfolding ones_add residue
ones_add-residue a n h = ground arith

abbrev AllWords : List ℕ → Type 0
AllWords = All (λ w. w < 2 ^ 16)

ones_sum-total : (ws : List ℕ) → AllWords ws → ones_sum ws ≡ residue (total ws)
unfolding ones_sum residue
ones_sum-total [] h = refl
ones_sum-total (w ∷ ws) h =
    ap (ones_add w) (ones_sum-total ws h.1) ∙ ones_add-residue w (total ws) h.0

fold_carries-residue : (n : ℕ) → n < 2 ^ 31 → fold_carries n % 2 ^ 16 ≡ residue n
unfolding fold_carries residue
fold_carries-residue n h = ground arith

words_sum-total : (bs : List ℕ) → words_sum bs ≡ total (words bs)
unfolding words_sum words
words_sum-total [] = refl
words_sum-total (b ∷ []) = omega arith
words_sum-total (lo ∷ hi ∷ rest) = omega (arith, words_sum-total rest)

whole_sum-total : (bs : List ℕ) → whole_sum bs ≡ total (whole_words bs)
unfolding whole_sum whole_words
whole_sum-total [] = refl
whole_sum-total (b ∷ []) = refl
whole_sum-total (lo ∷ hi ∷ rest) = omega (arith, whole_sum-total rest)

whole_words-AllWords : (bs : List ℕ) → AllBytes bs → AllWords (whole_words bs)
unfolding whole_words
whole_words-AllWords [] h = tt
whole_words-AllWords (b ∷ []) h = tt
whole_words-AllWords (lo ∷ hi ∷ rest) h =
    (omega (arith, h.0, h.1.0), whole_words-AllWords rest h.1.1)

whole_sum-bound : (bs : List ℕ) → AllBytes bs → whole_sum bs ≤ length bs * 2 ^ 15
unfolding whole_sum
whole_sum-bound [] h = omega arith
whole_sum-bound (b ∷ []) h = omega arith
whole_sum-bound (lo ∷ hi ∷ rest) h = omega (arith, whole_sum-bound rest h.1.1, h.0, h.1.0)

words-AllWords : (bs : List ℕ) → AllBytes bs → AllWords (words bs)
unfolding words
words-AllWords [] h = tt
words-AllWords (b ∷ []) h = (omega (arith, h.0), tt)
words-AllWords (lo ∷ hi ∷ rest) h = (omega (arith, h.0, h.1.0), words-AllWords rest h.1.1)

words_sum-bound : (bs : List ℕ) → AllBytes bs → words_sum bs ≤ length bs * 2 ^ 15
unfolding words_sum
words_sum-bound [] h = omega arith
words_sum-bound (b ∷ []) h = omega (arith, h.0)
words_sum-bound (lo ∷ hi ∷ rest) h = omega (arith, words_sum-bound rest h.1.1, h.0, h.1.0)

total-append : (us ws : List ℕ) → total (us ++ ws) ≡ total us + total ws
total-append [] ws = omega arith
total-append (u ∷ us) ws = omega (arith, total-append us ws)

AllWords-append : (us ws : List ℕ) → AllWords us → AllWords ws → AllWords (us ++ ws)
AllWords-append [] ws h k = k
AllWords-append (u ∷ us) ws h k = (h.0, AllWords-append us ws h.1 k)

folded :
    (n : ℕ) (ws : List ℕ)
    → n ≡ total ws
    → n < 2 ^ 31
    → AllWords ws
    → complement16 (fold_carries n) ≡ 2 ^ 16 - 1 - ones_sum ws
folded n ws e small all =
    ap (λ k. 2 ^ 16 - 1 - k)
      (fold_carries-residue n small ∙ ap residue e ∙ sym (ones_sum-total ws all))

-- The two checksums are those of RFC 1071, the complement of the ones' complement sum of the words,
-- although they add in an `int` and fold the carries in only at the end, and only twice: `CheckSum`
-- for a buffer of fewer than 2^16 bytes, `UdpChecksum` for a pseudo-header and data that together have
-- fewer. An odd last byte counts as a word with a zero byte, but for that of the pseudo-header, which is
-- left out.
pub check_sum_lem :
    (header data' : List ℕ)
    → AllBytes header
    → AllBytes data'
    → length header + length data' < 2 ^ 16
    → (check_sum data' ≡ 2 ^ 16 - 1 - ones_sum (words data'))
      × (udp_checksum header data' ≡ 2 ^ 16 - 1 - ones_sum (whole_words header ++ words data'))
unfolding check_sum udp_checksum
check_sum_lem header data' h d small = (
  folded (words_sum data') (words data') (words_sum-total data')
      (omega (arith, words_sum-bound data' d)) (words-AllWords data' d),
  folded (whole_sum header + words_sum data') (whole_words header ++ words data')
      (omega (
        arith,
        whole_sum-total header,
        words_sum-total data',
        total-append (whole_words header) (words data'),
      ))
      (omega (arith, whole_sum-bound header h, words_sum-bound data' d))
      (AllWords-append (whole_words header) (words data') (whole_words-AllWords header h)
        (words-AllWords data' d)),
)
