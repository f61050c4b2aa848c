-- ===== src/Session/Fidelity/Call.antt =====
-- A call: packet after packet from `Send` of an upload session to `Recv` of a download session.
use mathlib.Core.Path.{subst}
use codec_single_thread.Pcm.{speech}
use codec_single_thread.Session.{Coder}
use codec_single_thread.Session.Coders.{pcm_u_encoder, pcm_u_decoder}
use codec_single_thread.Session.Upload
use codec_single_thread.Session.Download
use codec_single_thread.Session.Link.{InStep}
use codec_single_thread.Session.Fidelity.{InRange, Near, recv-upload_send_heard}
use codec_single_thread.Base.{
  ℕ, ◌+◌, ◌/◌, ◌%◌, ◌≤◌, ◌≡◌, refl, sym, arith, List, [], ◌∷◌, ◌++◌, some, none, length, take, drop,
  replicate, All, ℤ, Option, take-drop-drop, length-take, length-drop,
}

-- What one packet is made of: the code that the upload session has received, and the contents of the
-- two buffers that the sessions write to.
pub record Turn : Type 0 where
  pub input : List ℕ
  pub send_buff : List ℕ
  pub codec_buff : List ℕ

-- The buffers of the loops have 65536 bytes.
abbrev pub IsRoomy : Turn → Type 0
IsRoomy t = (1048 ≤ length t.send_buff) × (2048 ≤ length t.codec_buff)

-- A buffer is the rooms for the two headers, and the rest.
parts : (b : List ℕ) → (take 12 b ++ take 12 (drop 12 b)) ++ drop 24 b ≡ b
parts b = take-drop-drop 12 12 b

fronts :
    (b : List ℕ) → 24 ≤ length b → (length (take 12 b) ≡ 12) × (length (take 12 (drop 12 b)) ≡ 12)
fronts b h = omega (arith, length-take 12 b, length-take 12 (drop 12 b), length-drop 12 b)

module _ (encoder' decoder : Coder) where
  abbrev pub Uploads : Type 0
  Uploads = Upload.UploadSession pcm_u_encoder decoder

  abbrev pub Downloads : Type 0
  Downloads = Download.DownloadSession encoder' pcm_u_decoder

  -- `Send`, the network, and `Recv`: the speech that is heard, none where one of them fails.
  pub exchange : Uploads → Downloads → Turn → Option (List ℤ) × Uploads × Downloads
  exchange s d t =
      let (r, s', packet) =
        Upload.send pcm_u_encoder decoder s t.input t.send_buff (length t.send_buff) in
      elim r [
        | none ↦ (none, s', d)
        | some k ↦
            let (n, d', out) =
              Download.recv encoder' pcm_u_decoder d (take k packet) t.codec_buff
                (length t.codec_buff) in
            (elim n [ none ↦ none | some j ↦ some (speech (take j out)) ], s', d')
      ]

  pub exchange_all : Uploads → Downloads → List Turn → List (Option (List ℤ))
  unfolding exchange
  exchange_all s d [] = []
  exchange_all s d (t ∷ ts) =
      let (heard, s', d') = exchange s d t in let rest = exchange_all s' d' ts in heard ∷ rest

  -- The speech that the upload's decoder makes of the codes in turn.
  said : Option ℕ × decoder.State × List ℕ → List ℤ
  said (none, st, pcm) = []
  said (some n, st, pcm) = speech (take n pcm)

  pub said_all : decoder.State → List Turn → List (List ℤ)
  unfolding said
  said_all st [] = []
  said_all st (t ∷ ts) =
      let run = decoder.codec st t.input (replicate 2048 0) 2048 in
      let rest = said_all run.1 ts in said run ∷ rest

  -- In any state the decoder makes whole frames in range of the code, in its buffer.
  pub record Spoken (st : decoder.State) (t : Turn) : Type 0 where
    pub bytes : ℕ
    pub after : decoder.State
    pub pcm : List ℕ
    pub run : decoder.codec st t.input (replicate 2048 0) 2048 ≡ (some bytes, after, pcm)
    pub whole : bytes % 320 ≡ 0
    pub fits : bytes ≤ 2048
    pub inside : bytes ≤ length pcm
    pub in_range : InRange (speech (take bytes pcm))

  -- Every piece of speech is heard, near what was said.
  abbrev pub AllNear : List (List ℤ) → List (Option (List ℤ)) → Type 0
  AllNear [] [] = Unit
  AllNear [] (h ∷ hs) = ⊥
  AllNear (x ∷ xs) [] = ⊥
  AllNear (x ∷ xs) (none ∷ hs) = ⊥
  AllNear (x ∷ xs) (some y ∷ hs) = Near x y × AllNear xs hs

  -- What the two calls give, for the buffer that `Send` writes to.
  abbrev Passes :
      (s : Uploads) → Downloads → (t : Turn) → Spoken s.decoder_state t → List ℕ → Type 0
  Passes s d t p buff =
      let sent = Upload.send pcm_u_encoder decoder s t.input buff (length t.send_buff) in
      let got =
        Download.recv encoder' pcm_u_decoder d (take (p.bytes / 2 + 24) sent.2) t.codec_buff
          (length t.codec_buff) in
      (sent.0 ≡ some (p.bytes / 2 + 24))
      × (got.0 ≡ some p.bytes)
      × Near (speech (take p.bytes p.pcm)) (speech (take p.bytes got.2))
      × (sent.1.decoder_state ≡ p.after)
      × InStep pcm_u_encoder decoder encoder' pcm_u_decoder sent.1 got.1

  passes :
      (s : Uploads) (d : Downloads) (t : Turn) (p : Spoken s.decoder_state t)
      → IsRoomy t
      → InStep pcm_u_encoder decoder encoder' pcm_u_decoder s d
      → Passes s d t p t.send_buff
  passes s d t p room v =
      let b = t.send_buff in
      subst (Passes s d t p) (parts b) (
        recv-upload_send_heard encoder' decoder s d t.input p.pcm (take 12 b) (take 12 (drop 12 b))
          (drop 24 b) t.codec_buff p.after p.bytes (length b) (length t.codec_buff) p.run p.whole
          p.inside p.in_range (omega (arith, p.fits))
          (omega (arith, p.fits, room, length-drop 24 b)) (omega (arith, p.fits, room))
          (fronts b (omega (arith, room))) v)

  exchange-Near :
      (s : Uploads) (d : Downloads) (t : Turn) (p : Spoken s.decoder_state t)
      → IsRoomy t
      → InStep pcm_u_encoder decoder encoder' pcm_u_decoder s d
      → let (heard, s', d') = exchange s d t in
        (y : List ℤ) × (heard ≡ some y)
        × Near (speech (take p.bytes p.pcm)) y
        × (s'.decoder_state ≡ p.after)
        × InStep pcm_u_encoder decoder encoder' pcm_u_decoder s' d'
  unfolding exchange
  exchange-Near s d t p room v =
      let run = passes s d t p room v in
      rw (exchange, run.0)
        (rw (exchange, run.1) (speech (take p.bytes _), refl, run.2, run.3, run.4))

  -- A whole call: whatever the buffers hold, of every packet the speech is heard, each sample within a
  -- thirty-second of the original's magnitude plus 132, if the two sessions are in step at first, the
  -- upload's decoder makes whole frames in range of every code, and the buffers are those of the loops.
  pub exchange_all-AllNear :
      (s : Uploads) (d : Downloads) (ts : List Turn)
      → All IsRoomy ts
      → All (λ t. (st : decoder.State) → Spoken st t) ts
      → InStep pcm_u_encoder decoder encoder' pcm_u_decoder s d
      → AllNear (said_all s.decoder_state ts) (exchange_all s d ts)
  unfolding exchange_all said_all
  exchange_all-AllNear s d [] room spoken v = tt
  exchange_all-AllNear s d (t ∷ ts) room spoken v =
      let p = spoken.0 s.decoder_state in
      let (y, heard, near, left, step) = exchange-Near s d t p room.0 v in
      let (_, s', d') = exchange s d t in
      let later = exchange_all-AllNear s' d' ts room.1 spoken.1 step in
      subst (λ r. AllNear (said r ∷ said_all r.1 ts) (exchange_all s d (t ∷ ts))) (sym p.run)
        (rw heard (near, subst (λ st. AllNear (said_all st ts) (exchange_all s' d' ts)) left later))
