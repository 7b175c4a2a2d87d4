-- ===== src/Transmit/Attempts.antt =====
-- How often a message is put on the line before it is given up.
use avr_cec.Common.{ℕ, zero, suc, ◌+◌, ◌<◌, ◌≡◌, arith, ◌==◌, if◌then◌else◌}
use avr_cec.Transmit.{Config, Tx, pend, again, failed, start, finish_abort}

module _ (c : Config) where
  -- `k` transmissions, each of which is aborted.
  pub fail_times : ℕ → Tx → Tx
  fail_times zero t = t
  fail_times (suc k) t = finish_abort c (start c (fail_times k t))

  first_attempt :
      (t : Tx)
      → t.state ≡ pend
      → ((finish_abort c (start c t)).state ≡ again) × ((finish_abort c (start c t)).retries ≡ 1)
  unfolding finish_abort start
  first_attempt t e = ground arith

  next_attempt :
      (t : Tx)
      → t.state ≡ again
      → t.retries < 5
      → ((finish_abort c (start c t)).state ≡ (if t.retries == 4 then failed else again))
        × ((finish_abort c (start c t)).retries ≡ t.retries + 1)
  unfolding finish_abort start
  next_attempt t e h = ground arith

  -- Of a message that the application has queued, the first four transmissions that are aborted
  -- leave it queued for another one, and the fifth leaves TRANSMIT_FAILED; the retry count is the
  -- number of the failed transmissions.
  pub fail_times-state :
      (k : ℕ) (t : Tx)
      → t.state ≡ pend
      → k < 5
      → ((fail_times (suc k) t).state ≡ (if k == 4 then failed else again))
        × ((fail_times (suc k) t).retries ≡ suc k)
  unfolding fail_times
  fail_times-state zero t e h = first_attempt t e
  fail_times-state (suc k) t e h =
      ground (arith, fail_times-state k t e, next_attempt (fail_times (suc k) t))
