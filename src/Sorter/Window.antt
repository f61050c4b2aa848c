-- ===== src/Sorter/Window.antt =====
-- The invariant of the sorter: the entries stand in order ahead of `now_sn`, within half a turn.
use native.Mathlib.Decide.{dec_le}
use codec_single_thread.Sorter.{
  diff32, less, PacketStatus, packet_now, packet_next, packet_behind, emplace, Sorter, init, insert,
  get, get_from, drop_behind, skip,
}
use codec_single_thread.Sorter.Circle.{less_ahead, diff32-advance, diff32_overtaken}
use codec_single_thread.Base.{
  [], ◌∷◌, true, suc, ℕ, ◌<◌, List, ◌^◌, ◌≤◌, ◌≡◌, arith, u32, ◌+◌, ◌-◌, false, refl, length, ◌*◌,
  inl, inr, ◌≢◌, Bool-cases, ◌==◌,
}

not_less : (a b : ℕ) → diff32 a b < 2 ^ 31 → less a b ≡ false
not_less a b h = ground arith

is_less : (a b : ℕ) → 2 ^ 31 ≤ diff32 a b → less a b ≡ true
is_less a b h = ground arith

module _ {ℓ} {A : Type ℓ} where
  -- Keys of 32 bits, each at least `lo` ahead of `now` and less than half a turn, rising strictly.
  abbrev pub Ahead : ℕ → ℕ → List (ℕ × A) → Type 0
  Ahead now lo [] = Unit
  Ahead now lo ((k, p) ∷ m) =
      (k < 2 ^ 32)
      × (lo ≤ diff32 k now)
      × (diff32 k now < 2 ^ 31)
      × Ahead now (suc (diff32 k now)) m

  pub Ahead-weaken :
      (now lo lo' : ℕ) (m : List (ℕ × A)) → lo' ≤ lo → Ahead now lo m → Ahead now lo' m
  Ahead-weaken now lo lo' [] h a = tt
  Ahead-weaken now lo lo' ((k, p) ∷ m) h a = (a.0, omega arith, a.2, a.3)

  -- `emplace` keeps the order.
  pub emplace-Ahead :
      (now lo sn : ℕ) (p : A) (m : List (ℕ × A))
      → now < 2 ^ 32
      → sn < 2 ^ 32
      → lo ≤ diff32 sn now
      → diff32 sn now < 2 ^ 31
      → Ahead now lo m
      → Ahead now lo (emplace sn p m)
  unfolding emplace
  emplace-Ahead now lo sn p [] hn hs hl hw a = (hs, hl, hw, tt)
  emplace-Ahead now lo sn p ((k, q) ∷ m) hn hs hl hw a = ground (
    arith,
    less_ahead now sn k hn hs a.0 hw a.2,
    less_ahead now k sn hn a.0 hs a.2 hw,
    emplace-Ahead now (suc (diff32 k now)) sn p m hn hs,
  )

  -- Moving `now` on by no more than the distance of the first entry keeps the order.
  pub advance-Ahead :
      (now n lo : ℕ) (m : List (ℕ × A))
      → now < 2 ^ 32
      → n < 2 ^ 32
      → n ≤ lo
      → Ahead now lo m
      → Ahead (u32 (now + n)) (lo - n) m
  advance-Ahead now n lo [] hn h le a = tt
  advance-Ahead now n lo ((k, p) ∷ m) hn h le a =
      let e = diff32-advance now n k hn a.0 h (omega arith) in
      let later = advance-Ahead now n (suc (diff32 k now)) m hn h (omega arith) a.3 in
      (a.0, omega (arith, e), omega (arith, e), Ahead-weaken _ _ _ m (omega (arith, e)) later)

  -- What `Skip` deletes is what it overtakes.
  pub drop_behind-Ahead :
      (now n lo : ℕ) (m : List (ℕ × A))
      → now < 2 ^ 32
      → n ≤ 2 ^ 31
      → Ahead now lo m
      → Ahead (u32 (now + n)) 0 (drop_behind (u32 (now + n)) m)
  unfolding drop_behind
  drop_behind-Ahead now n lo [] hn h a = tt
  drop_behind-Ahead now n lo ((k, p) ∷ m) hn h a = elim (dec_le n (diff32 k now)) [
    | yes le ↦
        let e = diff32-advance now n k hn a.0 (omega arith) le in
        let all : Ahead now (diff32 k now) ((k, p) ∷ m) = (a.0, omega arith, a.2, a.3) in
        let moved =
          Ahead-weaken _ _ 0 ((k, p) ∷ m) (omega arith)
            (advance-Ahead now n (diff32 k now) ((k, p) ∷ m) hn (omega arith) le all) in
        rw (not_less k (u32 (now + n)) (omega (arith, e))) moved
    | no gt ↦
        rw (is_less k (u32 (now + n)) (diff32_overtaken now n k hn a.0 h (omega arith)))
          (drop_behind-Ahead now n (suc (diff32 k now)) m hn h a.3)
  ]

-- The entries lie ahead of `now_sn`, and there are none before the first packet.
pub record IsValid {ℓ} {A : Type ℓ} (s : Sorter A) : Type 0 where
  pub now_fits : s.now_sn < 2 ^ 32
  pub increase_fits : s.increase < 2 ^ 31
  pub ahead : Ahead s.now_sn 0 s.entries
  pub empty_first : s.is_first ≡ true → length s.entries ≡ 0

module _ {ℓ} {A : Type ℓ} where
  pub init-IsValid : (increase : ℕ) → increase < 2 ^ 31 → IsValid (init {A = A} increase)
  unfolding init
  init-IsValid increase h = record {
    now_fits = omega arith;
    increase_fits = h;
    ahead = tt;
    empty_first = λ _. refl;
  }

  -- The branches of `Insert`, each with what it has tested: the last `return` is never reached.
  pub insert_cases :
      (P : PacketStatus × Sorter A → Type 0) (s : Sorter A) (sn : ℕ) (p : A)
      → s.now_sn < 2 ^ 32
      → sn < 2 ^ 32
      → (s.now_sn ≡ sn → P (packet_now, record s { now_sn = u32 (s.now_sn + s.increase) }))
      → (s.now_sn ≢ sn
          → s.is_first ≡ true
          → P (packet_now, record s { now_sn = u32 (sn + s.increase); is_first = false }))
      → (s.now_sn ≢ sn → s.is_first ≡ false → 2 ^ 31 ≤ diff32 sn s.now_sn → P (packet_behind, s))
      → (s.now_sn ≢ sn
          → s.is_first ≡ false
          → diff32 sn s.now_sn < 2 ^ 31
          → P (packet_next, record s { entries = emplace sn p s.entries }))
      → P (insert s sn p)
  unfolding insert
  insert_cases P s sn p hn hs now first behind next = ground arith

  Ahead-empty : (now lo : ℕ) (m : List (ℕ × A)) → length m ≡ 0 → Ahead now lo m
  Ahead-empty now lo [] h = tt
  Ahead-empty now lo (x ∷ m) h = absurd (omega arith)

  -- `Insert` keeps the order, unless the expected packet comes again while entries wait that the
  -- step to the next number would overtake.
  pub insert-IsValid :
      (s : Sorter A) (sn : ℕ) (p : A)
      → sn < 2 ^ 32
      → (s.now_sn ≡ sn → Ahead s.now_sn s.increase s.entries)
      → IsValid s
      → IsValid (insert s sn p).1
  insert-IsValid s sn p hs clear v =
      insert_cases (λ r. IsValid r.1) s sn p v.now_fits hs
        (λ e. record {
          now_fits = omega arith;
          increase_fits = v.increase_fits;
          ahead = Ahead-weaken _ _ 0 s.entries (omega arith) (
              advance-Ahead s.now_sn s.increase s.increase s.entries v.now_fits (omega (arith, v))
                (omega arith) (clear e));
          empty_first = v.empty_first;
        })
        (λ _ first. record {
          now_fits = omega arith;
          increase_fits = v.increase_fits;
          ahead = Ahead-empty _ 0 s.entries (v.empty_first first);
          empty_first = λ _. v.empty_first first;
        })
        (λ _ _ _. v)
        (λ _ later near. record {
          now_fits = v.now_fits;
          increase_fits = v.increase_fits;
          ahead = emplace-Ahead s.now_sn 0 sn p s.entries v.now_fits hs (omega arith) near v.ahead;
          empty_first = λ first. cc;
        })

  length-drop_behind : (now : ℕ) (m : List (ℕ × A)) → length m ≡ 0 → length (drop_behind now m) ≡ 0
  unfolding drop_behind
  length-drop_behind now [] h = refl
  length-drop_behind now (x ∷ m) h = absurd (omega arith)

  -- `Skip` by at most half a turn keeps the order.
  pub skip-IsValid :
      (s : Sorter A) (num : ℕ) → num * s.increase ≤ 2 ^ 31 → IsValid s → IsValid (skip s num)
  unfolding skip
  skip-IsValid s num h v = record {
    now_fits = omega arith;
    increase_fits = v.increase_fits;
    ahead = drop_behind-Ahead s.now_sn (num * s.increase) 0 s.entries v.now_fits h v.ahead;
    empty_first = λ first. length-drop_behind _ s.entries (v.empty_first first);
  }

  get_from-IsValid :
      (s : Sorter A) (m : List (ℕ × A))
      → IsValid s
      → Ahead s.now_sn 0 m
      → (s.is_first ≡ true → length m ≡ 0)
      → IsValid (get_from s m).1
  unfolding get_from
  get_from-IsValid s [] v a e = v
  get_from-IsValid s ((k, p) ∷ m) v a e = elim (Bool-cases (k == s.now_sn)) [
    | inl hit ↦ rw hit (record {
      now_fits = v.now_fits;
      increase_fits = v.increase_fits;
      ahead = Ahead-weaken _ _ 0 m (omega arith) a.3;
      empty_first = λ first. absurd (omega (arith, e first));
    })
    | inr miss ↦ rw miss v
  ]

  pub get-IsValid : (s : Sorter A) → IsValid s → IsValid (get s).1
  unfolding get
  get-IsValid s v = get_from-IsValid s s.entries v v.ahead v.empty_first
