-- ===== src/Session.antt =====
-- The sessions of src/session.h and src/session.cpp.
--
-- `Coder` is the interface of src/codec.h. The loop is the same text in `UploadSession` and
-- `DownloadSession`: it is a function of `Recv` and `Send`. For the loop the sockets are outside: what
-- `RecvFrom` gives is the list of a datagram's bytes, empty for its error, and what is passed to
-- `send_socket_.Send` is recorded.
pub mod Loop
pub mod Framing
pub mod Outgoing
pub mod Download
pub mod Upload
pub mod Link
pub mod Setup
pub mod Coders
pub mod Fidelity
mod Samples
mod Tests
use codec_single_thread.Base.{ℕ, List, Option, ltb, if◌then◌else◌, ◌-◌, ◌≤◌, ◌≡◌, arith}

-- `Codec` takes the input, the output buffer and its size; it gives none for a negative result. The
-- size is an `int`: `codec_negative` is `Codec` where it is below 0, by the number given.
pub record Coder : Type 1 where
  pub State : Type 0
  pub codec : State → List ℕ → List ℕ → ℕ → Option ℕ × State × List ℕ
  pub codec_negative : State → List ℕ → List ℕ → ℕ → Option ℕ × State × List ℕ

module _ (c : Coder) where
  -- `Codec` with the size that is left of `len` bytes behind `front` of them.
  pub codec_behind : c.State → List ℕ → List ℕ → ℕ → ℕ → Option ℕ × c.State × List ℕ
  codec_behind st input output len front =
      if ltb len front
      then c.codec_negative st input output (front - len)
      else c.codec st input output (len - front)

  pub codec_behind-fits :
      (st : c.State) (input output : List ℕ) (len front : ℕ)
      → front ≤ len
      → codec_behind st input output len front ≡ c.codec st input output (len - front)
  unfolding codec_behind
  codec_behind-fits st input output len front h = ground arith
