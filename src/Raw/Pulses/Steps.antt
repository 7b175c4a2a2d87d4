-- ===== src/Raw/Pulses/Steps.antt =====
-- One call of a receiver that looks at pulses.
use avr_cec.Common.{
  ℕ, ◌+◌, ◌-◌, ◌≤◌, ◌<◌, ◌≡◌, refl, sym, subst, arith, Bool, true, false, leb, List, [], ◌∷◌,
  Bool-cases, inl, inr, lt→ltb,
}
use avr_cec.Macros.Time.{Clock}
use avr_cec.Raw.{add_capped}
use avr_cec.Raw.Wave.{Poll, Wave, IsQuiet, sample_from, sample_to, start_from, bit_period, latest}
use avr_cec.Raw.Pulses.{Pulse, looks, IsFrame, IsBit}

-- A call that still lies in the pulse.
pub looks_same :
    (d : ℕ) (ds : List ℕ) (x : ℕ) (p : Pulse) (rest : List Pulse)
    → x + d < p.total
    → looks (d ∷ ds) x p rest
      ≡ record { delta = d; line = leb p.low (x + d) } ∷ looks ds (x + d) p rest
unfolding looks
looks_same d ds x p [] h = refl
looks_same d ds x p (p' ∷ rest) h = rw (lt→ltb (x + d) p.total h)

pub add_capped_exact : (a b : ℕ) → a + b < 65536 → add_capped a b ≡ a + b
unfolding add_capped
add_capped_exact a b h = ground arith

module _ (k : Clock) where
  IsQuiet-by :
      (least t : ℕ) (a b : Bool)
      → (a ≡ b → t ≤ latest k least)
      → (a ≡ false → b ≡ true → t ≤ start_from k)
      → (a ≡ true → b ≡ false → ⊥)
      → IsQuiet k least a b t
  IsQuiet-by least t false false s r n = s refl
  IsQuiet-by least t true true s r n = s refl
  IsQuiet-by least t false true s r n = r refl refl
  IsQuiet-by least t true false s r n = n refl refl

  -- The calls of a wave, with the timer's new value.
  waits_at :
      {p t : ℕ} {b last : Bool} {bs : List Bool} {l : List Poll} (q : Poll) (u : ℕ)
      → add_capped t q.delta ≡ u
      → IsQuiet k p last q.line u
      → u ≤ sample_from k
      → Wave k p (b ∷ bs) u q.line false l
      → Wave k p (b ∷ bs) t last false (q ∷ l)
  waits_at q u e quiet early w = Wave.waits q (rw e quiet) (rw e early) (rw e w)

  samples_at :
      {p t : ℕ} {last : Bool} {bs : List Bool} {l : List Poll} (q : Poll) (u : ℕ) (b : Bool)
      → q.line ≡ b
      → add_capped t q.delta ≡ u
      → IsQuiet k p last q.line u
      → sample_from k < u
      → u ≤ sample_to k
      → Wave k p bs u q.line true l
      → Wave k p (b ∷ bs) t last false (q ∷ l)
  samples_at {p} {t} {last} {bs} {l} q u b h e quiet early late w =
      subst (λ x. Wave k p (x ∷ bs) t last false (q ∷ l)) h
        (Wave.samples q (rw e quiet) (rw e early) (rw e late) (rw e w))

  rests_at :
      {p t : ℕ} {last : Bool} {bs : List Bool} {l : List Poll} (q : Poll) (u : ℕ)
      → add_capped t q.delta ≡ u
      → IsQuiet k p last q.line u
      → Wave k p bs u q.line true l
      → Wave k p bs t last true (q ∷ l)
  rests_at q u e quiet w = Wave.rests q (rw e quiet) (rw e w)

module _ (k : Clock) (g : ℕ) (window : sample_from k + g ≤ sample_to k) where
  -- The waves of the calls `l` after one at `x` ticks from the beginning of the pulse and `t` ticks from
  -- the call that has seen it, before and after the sample.
  abbrev pub Waves : ℕ → ℕ → ℕ → Pulse → List Bool → List Poll → Type 0
  Waves least x t p bs l =
      (IsBit k g p → t ≤ sample_from k → Wave k least (p.bit ∷ bs) t (leb p.low x) false l)
      × Wave k least bs t (leb p.low x) true l

  module _ (least x t d : ℕ) (p : Pulse) (f : IsFrame k g least p)
      (r : x < p.low → p.low + g ≤ start_from k) (h : d ≤ g) (b : t ≤ x) (b' : x ≤ t + g) where
    IsQuiet-within : x + d < p.total → IsQuiet k least (leb p.low x) (leb p.low (x + d)) (t + d)
    IsQuiet-within w =
        IsQuiet-by k least (t + d) (leb p.low x) (leb p.low (x + d)) (λ e. omega (arith, f.short))
          (λ e e'. ground (arith, r, e, e')) (λ e e'. ground (arith, e, e'))

    timer_within : x + d < p.total + g → add_capped t d ≡ t + d
    timer_within w = add_capped_exact t d (omega (arith, f.fits))

    sees_bit : IsBit k g p → t ≤ sample_from k → sample_from k < t + d → leb p.low (x + d) ≡ p.bit
    sees_bit i early late = elim (Bool-cases p.bit) [
      | inl one ↦ ground (arith, one, i.one_low one)
      | inr nil ↦ ground (arith, nil, i.zero_low nil)
    ]

    pub same_step :
        (bs : List Bool) (l : List Poll)
        → x + d < p.total
        → Waves least (x + d) (t + d) p bs l
        → Waves least x t p bs (record { delta = d; line = leb p.low (x + d) } ∷ l)
    same_step bs l w m =
        let q : Poll = record { delta = d; line = leb p.low (x + d) } in
        let e = timer_within (omega (arith, w)) in
        (
          λ i early. elim (Bool-cases (leb (t + d) (sample_from k))) [
            | inl soon ↦
                waits_at k q (t + d) e (IsQuiet-within w) (ground (arith, soon))
                  (m.0 i (ground (arith, soon)))
            | inr due ↦
                samples_at k q (t + d) p.bit (sees_bit i early (ground (arith, due))) e
                  (IsQuiet-within w) (ground (arith, due)) (omega (arith, window)) m.1
          ],
          rests_at k q (t + d) e (IsQuiet-within w) m.1,
        )

    pub next_step :
        (p' : Pulse) (bs : List Bool) (l : List Poll)
        → p.total ≤ x + d
        → x < p.total
        → IsBit k g p'
        → Waves (bit_period k) (x + d - p.total) 0 p' bs l
        → Waves least x t p
            (p'.bit ∷ bs)
            (record { delta = d; line = leb p'.low (x + d - p.total) } ∷ l)
    next_step p' bs l w u i m =
        let q : Poll = record { delta = d; line = leb p'.low (x + d - p.total) } in
        let low : leb p'.low (x + d - p.total) ≡ false = ground (arith, i.frame.seen) in
        let high : leb p.low x ≡ true = ground (arith, f.seen_high) in
        let e = timer_within (omega (arith, u)) in
        (
          λ j early. absurd (omega (arith, j.settled)),
          subst (λ z. Wave k least (p'.bit ∷ bs) t z true (q ∷ l)) (sym high)
              (Wave.falls q low (rw e (omega (arith, f.long))) (
                subst (λ z. Wave k (bit_period k) (p'.bit ∷ bs) 0 z false l) low
                  (m.0 i (omega arith)))),
        )
