-- ===== src/Watchdog/Report.antt =====
-- What `cec_watchdog_periodic` reports, and what it leaves in the timer.
use avr_cec.Common.{
  ℕ, ◌+◌, ◌≡◌, arith, Bool, true, not, ◌&&◌, ◌||◌, ◌==◌, if◌then◌else◌, bit_at, u8,
}
use avr_cec.Watchdog.{
  Part, Reads, Machine, us_to_ticks, max_latency_us, at_done, at_rising_edge, at_no_edge, at_tifr,
  watchdog_periodic,
}

module _ (p : Part) (f_cpu : ℕ) (q : Reads) where
  -- TCNT1 with the latency on top, the conditions of a report, and those of a restart of the timer.
  abbrev pub deadline : ℕ
  deadline = u8 (q.tcnt1 + us_to_ticks f_cpu max_latency_us)

  abbrev pub reports : Bool
  reports =
      not (bit_at q.tifr p.ocf1b)
      && not (bit_at q.pin_out p.pb1)
      && deadline == 0
      && not (bit_at q.tifr p.ocf1a)
      && bit_at q.pin_in p.pb0

  abbrev pub restarts : Bool
  restarts = bit_at q.tifr p.ocf1b || not (bit_at q.pin_out p.pb1 || deadline == 0)

  -- The result of `cec_watchdog_periodic` is 1 exactly if the call is in time (OCF1B is clear), the output
  -- is not driven, the input is set, OCF1A is clear, which is so while the time after a release runs,
  -- and TCNT1 plus the latency is 0 modulo 256; otherwise it is 0. It does not depend on
  -- `cec_watchdog_last_output`, in whose place the code tests TCNT1 plus the latency.
  pub watchdog_periodic-report :
      (m : Machine) → (watchdog_periodic p f_cpu q m).r24 ≡ (if reports then 1 else 0)
  unfolding watchdog_periodic at_tifr at_no_edge at_rising_edge at_done
  watchdog_periodic-report m = ground arith

  -- A call that comes too late, and one at which the output is not driven and TCNT1 plus the latency is
  -- not 0 modulo 256, restart the timer; TIFR then gets whatever the caller has in r13, and not the
  -- flags in r23. Otherwise TIFR and TCNT1 are not written, and the deadline moves on. What is kept for
  -- the next call is 0 if this one is in time with the output not driven, and 1 if not; interrupts are
  -- allowed at the end.
  pub watchdog_periodic-timer :
      (m : Machine)
      → (let m' = watchdog_periodic p f_cpu q m in
          (m'.tifr ≡ (if restarts then m.lower 13 else m.tifr))
          × (m'.tcnt1 ≡ (if restarts then m.lower 1 else m.tcnt1))
          × (m'.ocr1b ≡ (if restarts then us_to_ticks f_cpu max_latency_us else deadline))
          × (m'.last_output
              ≡ (if not (bit_at q.tifr p.ocf1b) && not (bit_at q.pin_out p.pb1) then 0 else 1))
          × (m'.interrupts ≡ true))
  unfolding watchdog_periodic at_tifr at_no_edge at_rising_edge at_done
  watchdog_periodic-timer m = (ground arith, ground arith, ground arith, ground arith, ground arith)
