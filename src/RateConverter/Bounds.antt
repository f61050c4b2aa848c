-- ===== src/RateConverter/Bounds.antt =====
-- What a conversion may write.
use codec_single_thread.RateConverter.{SrcLib, RateConverter, Rate, convert, buff_size, truncated}
use codec_single_thread.Base.{some, List, ℕ, Bool, ◌<◌, ◌≡◌, length, ◌≤◌, ◌*◌, arith, ◌∙◌, ap}

-- A conversion that succeeds has taken at most 1600 samples and gives no more than the caller has
-- room for; one that fails on its input's size leaves the converter as it was.
pub convert_bounds :
    (lib : SrcLib) (c : RateConverter lib) (input out : List ℕ) (room : ℕ) (is_end : Bool)
    → (convert lib c input room is_end).0 ≡ some out
    → (length out ≤ room) × (length input ≤ buff_size) × (length input * c.rate ≤ buff_size)
unfolding convert
convert_bounds lib c input out room is_end h = ground arith

-- A converter to a lower rate has `rate_` 0, so the test on the output's size never fails: any input
-- of up to 1600 samples reaches the library.
pub convert_down :
    (lib : SrcLib) (c : RateConverter lib) (r : Rate) (input out : List ℕ) (room : ℕ)
    (is_end : Bool)
    → r.num < r.den
    → c.rate ≡ truncated r
    → length input ≤ buff_size
    → (lib.src_process c.p_state c.ratio is_end input).1 ≡ some out
    → length out ≤ room
    → (convert lib c input room is_end).0 ≡ some out
unfolding convert
convert_down lib c r input out room is_end h e fits made out_fits =
    let zero : c.rate ≡ 0 = e ∙ grind arith in
    let none_over : length input * c.rate ≡ 0 =
      ap (λ (k : ℕ). length input * k) zero ∙ omega arith in
    ground (arith, none_over)

-- What the library makes of an input that passes the two tests is what the caller gets, where it
-- fits; the rate stays.
pub convert_made :
    (lib : SrcLib) (c : RateConverter lib) (input out : List ℕ) (room : ℕ) (is_end : Bool)
    → length input ≤ buff_size
    → length input * c.rate ≤ buff_size
    → (lib.src_process c.p_state c.ratio is_end input).1 ≡ some out
    → length out ≤ room
    → ((convert lib c input room is_end).0 ≡ some out)
      × ((convert lib c input room is_end).1.rate ≡ c.rate)
unfolding convert
convert_made lib c input out room is_end fits over made out_fits = ground arith
