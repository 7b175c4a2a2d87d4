-- ===== src/Raw/Pulses.antt =====
-- A line that carries pulses, and a receiver that looks at it now and then: the calls find a waveform of
-- bits. All times are in ticks of the receiver's timer.
pub mod Steps
pub mod Seen
pub mod Calls
use avr_cec.Common.{
  ℕ, zero, suc, ◌+◌, ◌-◌, ◌*◌, ◌⊎◌, ◌≤◌, ◌<◌, ◌≡◌, refl, ap, ◌∙◌, sym, subst, arith, Bool, true,
  false, if◌then◌else◌, ltb, leb, List, [], ◌∷◌, Bool-cases, inl, inr, ltb→lt, lt→ltb,
}
use avr_cec.Macros.Time.{Clock}
use avr_cec.Raw.{add_capped}
use avr_cec.Raw.Wave.{
  Poll, Wave, StartWave, IsQuiet, sample_from, sample_to, start_from, start_to, bit_period,
  start_period, latest,
}

-- The line is low for the first part of a pulse, and high for the rest; the pulse stands for a bit.
pub record Pulse : Type 0 where
  pub bit : Bool
  pub low : ℕ
  pub total : ℕ

abbrev pub bits_of : List Pulse → List Bool
bits_of [] = []
bits_of (p ∷ r) = p.bit ∷ bits_of r

-- The calls at the given distances, the one before them `x` ticks after the beginning of the pulse `p`,
-- behind which the others follow; behind the last one the line stays high.
unfoldable pub looks : List ℕ → ℕ → Pulse → List Pulse → List Poll
looks [] x p r = []
looks (d ∷ ds) x p [] = record { delta = d; line = leb p.low (x + d) } ∷ looks ds (x + d) p []
looks (d ∷ ds) x p (p' ∷ r) =
    let same_pulse = record { delta = d; line = leb p.low (x + d) } ∷ looks ds (x + d) p (p' ∷ r) in
    let y = x + d - p.total in
    let next_pulse = record { delta = d; line = leb p'.low y } ∷ looks ds y p' r in
    if ltb (x + d) p.total then same_pulse else next_pulse

module _ (k : Clock) (g : ℕ) where
  -- A frame that is seen by calls at most `g` ticks apart, the next falling edge at least `least` ticks
  -- after its own.
  pub record IsFrame (least : ℕ) (p : Pulse) : Type 0 where
    pub seen : g < p.low
    pub seen_high : p.low + g ≤ p.total
    pub long : least + g ≤ p.total
    pub short : p.total ≤ latest k least
    pub fits : p.total + g < 65536

  pub record IsBit (p : Pulse) : Type 0 where
    pub frame : IsFrame (bit_period k) p
    pub no_start : p.low + g ≤ start_from k
    pub settled : sample_from k + (g + g) < p.total
    pub zero_low : p.bit ≡ false → sample_from k + (g + g) < p.low
    pub one_low : p.bit ≡ true → p.low ≤ sample_from k

  pub record IsStart (p : Pulse) : Type 0 where
    pub frame : IsFrame (start_period k) p
    pub early : start_from k + g < p.low
    pub late : p.low + g ≤ start_to k

  abbrev pub AreBits : List Pulse → Type 0
  AreBits [] = Unit
  AreBits (p ∷ r) = IsBit p × AreBits r

  -- The calls, which end at `e` from the beginning of the pulse, see all the pulses, but not the end of
  -- the last one.
  abbrev pub SeesAll : ℕ → Pulse → List Pulse → Type 0
  SeesAll e p [] = (p.low ≤ e) × (sample_from k + g < e) × (e < p.total)
  SeesAll e p (p' ∷ r) = (p.total ≤ e) × SeesAll (e - p.total) p' r

  abbrev pub AreClose : List ℕ → Type 0
  AreClose [] = Unit
  AreClose (d ∷ ds) = (d ≤ g) × AreClose ds

abbrev pub sum : List ℕ → ℕ
sum [] = 0
sum (d ∷ ds) = d + sum ds
