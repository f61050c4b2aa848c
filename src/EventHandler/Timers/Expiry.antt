-- ===== src/EventHandler/Timers/Expiry.antt =====
-- `HandleEvent` with callbacks that leave the handler alone: what it calls, and what it leaves.
use mathlib.Core.Path.{subst}
use codec_single_thread.EventHandler.{EventHandler, Event, Ended, done, handle_event, round, go_on}
use codec_single_thread.EventHandler.Iterators.{fired}
use codec_single_thread.EventHandler.Timers.{
  IsLinked, timer, due-timer, timer-fired, fired-IsLinked,
}
use codec_single_thread.EventHandler.Timers.Simulation.{
  first-least, first_lookup, passive, fire_due,
}
use codec_single_thread.Base.{
  ℕ, zero, suc, ◌≡◌, ◌<◌, refl, List, [], ◌∷◌, Bool-cases, true, false, Option, none, some, arith,
  lookup, ap, sym, ◌∙◌, if◌then◌else◌, ltb, leb, length, replicate, Option-cases, inl, inr, ◌>>=◌,
  lookup-insert,
}

module _ {Cb : Type 0} where
  abbrev pub cb_of : List (ℕ × Event Cb) → ℕ → Option Cb
  cb_of sockets fd = lookup fd sockets >>= λ e. e.cb

  -- The callbacks of the entries up to `now`, in the order of their times.
  unfoldable pub due_callbacks : ℕ → List (ℕ × ℕ) → List (ℕ × Event Cb) → List Cb
  due_callbacks now [] sockets = []
  due_callbacks now ((t, fd) ∷ table) sockets =
      let rest = due_callbacks now table sockets in
      if ltb now t then [] else elim (cb_of sockets fd) [ none ↦ [] | some c ↦ c ∷ rest ]

  due_callbacks-ext :
      (now : ℕ) (table : List (ℕ × ℕ)) (m m' : List (ℕ × Event Cb))
      → ((fd : ℕ) → cb_of m fd ≡ cb_of m' fd)
      → due_callbacks now table m ≡ due_callbacks now table m'
  unfolding due_callbacks
  due_callbacks-ext now [] m m' same = refl
  due_callbacks-ext now ((t, fd) ∷ table) m m' same =
      ground (arith, due_callbacks-ext now table m m' same, same fd)

  cb_of-fired :
      (h : EventHandler Cb) (fd k : ℕ) (event : Event Cb) (table : List (ℕ × ℕ))
      → lookup fd h.sockets_event ≡ some event
      → cb_of (fired h fd event table).sockets_event k ≡ cb_of h.sockets_event k
  cb_of-fired h fd k event table e =
      rw (lookup-insert k fd (record event { it = none }) h.sockets_event)
        (ground (arith, e, ap (λ (n : ℕ). lookup n h.sockets_event) {x = k} {y = fd}))

  -- A timer that has passed is gone.
  abbrev pub still : ℕ → Option (ℕ × Cb) → Option (ℕ × Cb)
  still now none = none
  still now (some (t, c)) = if leb t now then none else some (t, c)

module _ {Cb W : Type 0} (note : Cb → W → W) where
  abbrev pub note_all : List Cb → W → W
  note_all [] w = w
  note_all (c ∷ cs) w = note_all cs (note c w)

  abbrev Handled : ℕ → EventHandler Cb → W → Ended × EventHandler Cb × W → Type 0
  Handled now h w out =
      (out.0 ≡ done)
      × (out.2 ≡ note_all (due_callbacks now h.event_table h.sockets_event) w)
      × ((k : ℕ) → timer out.1.sockets_event k ≡ still now (timer h.sockets_event k))

  early_lem :
      (now t fd : ℕ) (table : List (ℕ × ℕ)) (h : EventHandler Cb) (w : W)
      → h.event_table ≡ (t, fd) ∷ table
      → ltb now t ≡ true
      → IsLinked h
      → Handled now h w (done, h, w)
  unfolding due_callbacks
  early_lem now t fd table h w e early v = (
    refl,
    sym (ap (λ m. note_all (due_callbacks now m h.sockets_event) w) e ∙ rw early refl),
    λ k. elim (Option-cases (timer h.sockets_event k)) [
      | inl n ↦ rw n refl
      | inr ((u, c), p) ↦
          let l = v.safe.valid k u (due-timer h.sockets_event k u c p) in
          rw p (ground (arith, first-least t fd u k table h.event_table e v.safe.rising l))
    ],
  )

  nil_lem :
      (now : ℕ) (h : EventHandler Cb) (w : W)
      → h.event_table ≡ []
      → IsLinked h
      → Handled now h w (done, h, w)
  unfolding due_callbacks lookup
  nil_lem now h w e v = (
    refl,
    sym (ap (λ m. note_all (due_callbacks now m h.sockets_event) w) e),
    λ k. elim (Option-cases (timer h.sockets_event k)) [
      | inl n ↦ rw n refl
      | inr ((u, c), p) ↦
          let l = v.safe.valid k u (due-timer h.sockets_event k u c p) in
          ground (arith, l, ap (lookup u) e)
    ],
  )

  late_lem :
      (now t fd : ℕ) (table : List (ℕ × ℕ)) (h : EventHandler Cb) (w : W) (event : Event Cb)
      (c : Cb) (out : Ended × EventHandler Cb × W)
      → h.event_table ≡ (t, fd) ∷ table
      → ltb now t ≡ false
      → lookup fd h.sockets_event ≡ some event
      → event.cb ≡ some c
      → timer h.sockets_event fd ≡ some (t, c)
      → Handled now (fired h fd event table) (note c w) out
      → Handled now h w out
  unfolding due_callbacks
  late_lem now t fd table h w event c out e late s ec mine (ended, noted, timers) = (
    ended,
    noted
        ∙ ap (λ cs. note_all cs (note c w))
            (due_callbacks-ext now table (fired h fd event table).sockets_event h.sockets_event
              (λ k. cb_of-fired h fd k event table s))
        ∙ sym
            (ap (λ m. note_all (due_callbacks now m h.sockets_event) w) e ∙ rw (late, s, ec) refl),
    λ k. timers k ∙ ground (arith, timer-fired h fd k event table, mine),
  )

  round-early :
      (loop : EventHandler Cb × W → Ended × EventHandler Cb × W) (now t fd : ℕ)
      (table : List (ℕ × ℕ)) (h : EventHandler Cb) (w : W)
      → h.event_table ≡ (t, fd) ∷ table
      → ltb now t ≡ true
      → round (passive note) loop now h.event_table (h, w) ≡ (done, h, w)
  unfolding round
  round-early loop now t fd table h w e early =
      ap (λ m. round (passive note) loop now m (h, w)) e ∙ rw early refl

  -- One round on a first entry that is due, whose socket has an event with a callback.
  round-late :
      (loop : EventHandler Cb × W → Ended × EventHandler Cb × W) (now t fd : ℕ)
      (table : List (ℕ × ℕ)) (h : EventHandler Cb) (w : W) (event : Event Cb) (c : Cb)
      → h.event_table ≡ (t, fd) ∷ table
      → ltb now t ≡ false
      → lookup fd h.sockets_event ≡ some event
      → event.cb ≡ some c
      → round (passive note) loop now h.event_table (h, w) ≡ loop (fired h fd event table, note c w)
  unfolding round go_on
  round-late loop now t fd table h w event c e late s ec =
      ap (λ m. round (passive note) loop now m (h, w)) e
      ∙ rw late (ap (go_on (passive note) loop) (fire_due note fd table h w event c s ec))

  cb_of_timer :
      (m : List (ℕ × Event Cb)) (fd t : ℕ) (c : Cb)
      → timer m fd ≡ some (t, c)
      → (event : Event Cb) × ((lookup fd m ≡ some event) × (event.cb ≡ some c))
  unfolding timer
  cb_of_timer m fd t c p = elim (Option-cases (lookup fd m)) [
    | inl n ↦ ground (arith, n, p)
    | inr (event, l) ↦ (event, (l, ground (arith, l, p)))
  ]

  -- With callbacks that leave the handler alone, a clock that stands still at `now`, and more readings
  -- than the table has entries, `HandleEvent` comes back: it has called exactly the callbacks of the
  -- entries up to `now`, in the order of their times, and their timers have ended, while the later
  -- ones are as they were. The handler must be one whose every entry is the pending event of its
  -- socket.
  pub expiry :
      (now n : ℕ) (h : EventHandler Cb) (w : W) (table : List (ℕ × ℕ))
      → h.event_table ≡ table
      → length table < n
      → IsLinked h
      → Handled now h w (handle_event (passive note) (replicate n now) (h, w))
  unfolding handle_event
  expiry now zero h w table e few v = absurd (omega arith)
  expiry now (suc n) h w [] e few v =
      subst
        (λ m.
          Handled now h w
            (round (passive note) (handle_event (passive note) (replicate n now)) now m (h, w)))
        (sym e) (nil_lem now h w e v)
  expiry now (suc n) h w ((t, fd) ∷ table) e few v = elim (Bool-cases (ltb now t)) [
    | inl early ↦
        subst (Handled now h w)
          (sym (
            round-early (handle_event (passive note) (replicate n now)) now t fd table h w e early))
          (early_lem now t fd table h w e early v)
    | inr late ↦
        let mine = v.owned fd t (ap (lookup t) e ∙ first_lookup t fd table) in
        let (event, (s, ec)) = cb_of_timer h.sockets_event fd t mine.0 mine.1 in
        subst (Handled now h w)
          (sym (
            round-late (handle_event (passive note) (replicate n now)) now t fd table h w event
              mine.0 e late s ec))
          (late_lem now t fd table h w event mine.0
            (handle_event (passive note) (replicate n now) (fired h fd event table, note mine.0 w))
            e late s ec mine.1
            (expiry now n (fired h fd event table) (note mine.0 w) table refl (omega arith)
              (fired-IsLinked h t fd event table e v)))
  ]
