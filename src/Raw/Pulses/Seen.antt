-- ===== src/Raw/Pulses/Seen.antt =====
-- All the calls of a receiver that looks at pulses, by their number.
use avr_cec.Common.{
  ℕ, ◌+◌, ◌-◌, ◌≤◌, ◌<◌, ◌≡◌, sym, subst, arith, true, ltb, leb, List, [], ◌∷◌, Bool-cases, inl,
  inr, ltb→lt,
}
use avr_cec.Macros.Time.{Clock}
use avr_cec.Raw.{add_capped}
use avr_cec.Raw.Wave.{
  Poll, Wave, StartWave, sample_from, sample_to, start_from, bit_period, start_period,
}
use avr_cec.Raw.Pulses.{Pulse, bits_of, looks, IsFrame, IsStart, AreBits, SeesAll, AreClose, sum}
use avr_cec.Raw.Pulses.Steps.{looks_same, add_capped_exact, Waves, same_step, next_step}

module _ (k : Clock) (g : ℕ) (window : sample_from k + g ≤ sample_to k) where
  sum_more : (x d : ℕ) (ds : List ℕ) → x + sum (d ∷ ds) ≡ x + d + sum ds
  sum_more x d ds = omega arith

  sum_next :
      (x d total : ℕ) (ds : List ℕ)
      → total ≤ x + d
      → x + sum (d ∷ ds) - total ≡ x + d - total + sum ds
  sum_next x d total ds h = omega arith

  -- By the number of calls.
  pulses_wave :
      (ds : List ℕ) (least x t : ℕ) (p : Pulse) (rest : List Pulse)
      → IsFrame k g least p
      → (x < p.low → p.low + g ≤ start_from k)
      → AreBits k g rest
      → AreClose k g ds
      → SeesAll k g (x + sum ds) p rest
      → t ≤ x
      → x ≤ t + g
      → x < p.total
      → Waves k g window least x t p (bits_of rest) (looks ds x p rest)
  unfolding looks
  pulses_wave [] least x t p [] f r a c s b b' w = (
    λ i early. absurd (omega (arith, s)),
    subst (λ z. Wave k least [] t z true []) (sym (ground (arith, s))) Wave.over,
  )
  pulses_wave [] least x t p (p' ∷ rest) f r a c s b b' w = absurd (omega (arith, s))
  pulses_wave (d ∷ ds) least x t p [] f r a c s b b' w =
      let u : x + d < p.total = omega (arith, s) in
      same_step k g window least x t d p f r c.0 b b' [] (looks ds (x + d) p []) u (
        pulses_wave ds least (x + d) (t + d) p [] f (λ l. r (omega arith)) a c.1
          (subst (λ e. SeesAll k g e p []) (sum_more x d ds) s) (omega arith) (omega arith) u)
  pulses_wave (d ∷ ds) least x t p (p' ∷ rest) f r a c s b b' w =
      elim (Bool-cases (ltb (x + d) p.total)) [
        | inl u ↦ rw u (
            same_step k g window least x t d p f r c.0 b b' (bits_of (p' ∷ rest))
              (looks ds (x + d) p (p' ∷ rest)) (ltb→lt (x + d) p.total u)
              (pulses_wave ds least (x + d) (t + d) p (p' ∷ rest) f (λ l. r (omega arith)) a c.1
                (subst (λ e. SeesAll k g e p (p' ∷ rest)) (sum_more x d ds) s) (omega arith)
                (omega arith) (ltb→lt (x + d) p.total u)))
        | inr u ↦
            let v : p.total ≤ x + d = ground (arith, u) in
            rw u (
              next_step k g window least x t d p f r c.0 b b' p' (bits_of rest)
                (looks ds (x + d - p.total) p' rest) v w a.0
                (pulses_wave ds (bit_period k) (x + d - p.total) 0 p' rest a.0.frame
                  (λ l. a.0.no_start) a.1 c.1
                  (subst (λ e. SeesAll k g e p' rest) (sum_next x d p.total ds v) s.1) (omega arith)
                  (omega (arith, c.0)) (omega (arith, c.0, a.0.frame.seen, a.0.frame.seen_high))))
      ]

  -- The low part of a start bit, seen for `t` ticks.
  starts_wave :
      (ds : List ℕ) (x t : ℕ) (p : Pulse) (rest : List Pulse)
      → IsStart k g p
      → AreBits k g rest
      → AreClose k g ds
      → SeesAll k g (x + sum ds) p rest
      → t ≤ x
      → x ≤ t + g
      → x < p.low
      → StartWave k (bits_of rest) t (looks ds x p rest)
  starts_wave [] x t p [] i a c s b b' w = absurd (omega (arith, s))
  starts_wave [] x t p (p' ∷ rest) i a c s b b' w = absurd (omega (arith, s, i.frame.seen_high))
  starts_wave (d ∷ ds) x t p rest i a c s b b' w =
      let q : Poll = record { delta = d; line = leb p.low (x + d) } in
      let u : x + d < p.total = omega (arith, i.frame.seen_high, c.0) in
      let e : add_capped t d ≡ t + d = add_capped_exact t d (omega (arith, i.frame.fits)) in
      let s' = subst (λ z. SeesAll k g z p rest) (sum_more x d ds) s in
      subst (StartWave k (bits_of rest) t) (sym (looks_same d ds x p rest u))
        (elim (Bool-cases (leb p.low (x + d))) [
          | inl high ↦
              StartWave.rises q high (ground (arith, e, i.early, high)) (omega (arith, e, i.late)) (
                rw e (
                  subst
                    (λ z.
                      Wave k (start_period k) (bits_of rest) (t + d) z true
                        (looks ds (x + d) p rest))
                    high
                    (pulses_wave ds (start_period k) (x + d) (t + d) p rest i.frame
                      (λ l. absurd (ground (arith, high, l))) a c.1 s' (omega arith) (omega arith)
                      u).1))
          | inr low ↦ StartWave.stays q low (
              rw e (
                starts_wave ds (x + d) (t + d) p rest i a c.1 s' (omega arith) (omega arith)
                  (ground (arith, low))))
        ])

  -- A receiver that sees the falling edge of a start bit `x` ticks late, and then looks at the line at
  -- the given distances, finds the waveform of the bits.
  pub pulses-StartWave :
      (ds : List ℕ) (x : ℕ) (p : Pulse) (rest : List Pulse)
      → IsStart k g p
      → AreBits k g rest
      → AreClose k g ds
      → SeesAll k g (x + sum ds) p rest
      → x ≤ g
      → StartWave k (bits_of rest) 0 (looks ds x p rest)
  pulses-StartWave ds x p rest i a c s h =
      starts_wave ds x 0 p rest i a c s (omega arith) (omega arith) (omega (arith, i.frame.seen))
