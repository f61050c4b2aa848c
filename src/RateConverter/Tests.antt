-- ===== src/RateConverter/Tests.antt =====
-- Runs of the converter over a stand-in library, and its theorems at it.
use codec_single_thread.RateConverter.{SrcLib, Rate, RateConverter, convert, init}
use codec_single_thread.Base.{[], ◌∷◌, some, none, false, refl, List, ℕ, ◌≡◌}

-- Every other sample; the state counts the calls.
abbrev halve : List ℕ → List ℕ
halve (x ∷ y ∷ xs) = x ∷ halve xs
halve _ = []

abbrev lib : SrcLib
lib = record {
  State = ℕ;
  src_new = λ quality. some 0;
  src_set_ratio = λ st rate. (st, false);
  src_process = λ st ratio is_end xs. (st, some (halve xs));
}

abbrev half : Rate
half = record { num = 8000; den = 16000 }

abbrev converter : RateConverter lib
converter = record { p_state = some 0; rate = 0; ratio = half }

init_down : init lib (record converter { p_state = none; rate = 7 }) half 1 ≡ (some 0, converter)
unfolding init
init_down = refl

no_room : (convert lib converter (1 ∷ 2 ∷ 3 ∷ 4 ∷ []) 1 false).0 ≡ none
unfolding convert
no_room = refl
