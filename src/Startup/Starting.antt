-- ===== src/Startup/Starting.antt =====
-- What `main` makes of a configuration file.
use codec_single_thread.Startup.{
  Config, Outcome, joined, config_error, thread_of, start_sessions, codes,
}
use codec_single_thread.Startup.Threads.{
  IsGood, Refused, start_sessions_lem, start_sessions-Refused,
}
use codec_single_thread.Startup.Reading.{Json, config_of, run_main}
use codec_single_thread.Base.{
  ℕ, ◌≡◌, refl, ◌∙◌, List, [], ◌∷◌, ◌++◌, Option, some, none, map, All, true, false, Bool-cases,
  inl, inr,
}

module _ (json : Json) where
  -- The text holds an object with an array "session", whose entries read so.
  abbrev pub Holds : List ℕ → List (Option Config) → Type 0
  Holds text entries =
      (sessions : json.Value) × (json.member (json.parse json.null text).1 (codes "session")
        ≡ some sessions)
      × (json.is_array sessions ≡ true)
      × (map (config_of json) (json.elements sessions) ≡ entries)

  run_main-Holds :
      (text : List ℕ) (entries : List (Option Config))
      → Holds text entries
      → run_main json (some text) ≡ start_sessions entries []
  unfolding run_main
  run_main-Holds text entries (sessions, found, array, read) =
      elim (Bool-cases (json.parse json.null text).0) [
        | inl e ↦ rw (e, found, array, read, run_main) refl
        | inr e ↦ rw (e, found, array, read, run_main) refl
      ]

  -- From a file whose text holds good entries, the program starts one thread for each, in their order
  -- and with the parameters that they name, and waits for them.
  pub run_main_lem :
      (text : List ℕ) (good : List Config)
      → Holds text (map some good)
      → All IsGood good
      → run_main json (some text) ≡ (joined, map thread_of good)
  run_main_lem text good holds v =
      run_main-Holds text (map some good) holds ∙ start_sessions_lem good v

  -- An entry with a member of another type than the one asked for ends the program by an exception
  -- that nothing catches, one with an unknown coder and no UDP/IP header by an error; the threads of
  -- the good entries before it have been started then, and no entry behind it is read.
  pub run_main-Refused :
      (text : List ℕ) (good : List Config) (entry : Option Config) (entries : List (Option Config))
      (o : Outcome)
      → Holds text (map some good ++ (entry ∷ entries))
      → All IsGood good
      → Refused entry o
      → run_main json (some text) ≡ (o, map thread_of good)
  run_main-Refused text good entry entries o holds v bad =
      run_main-Holds text (map some good ++ (entry ∷ entries)) holds
      ∙ start_sessions-Refused good entries entry o v bad

  -- A file that does not open is a configuration without sessions.
  pub run_main-missing :
      json.member json.null (codes "session") ≡ some json.null
      → json.is_array json.null ≡ false
      → run_main json none ≡ (config_error, [])
  unfolding run_main
  run_main-missing found array = rw (found, array, run_main) refl
