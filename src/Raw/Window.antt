-- ===== src/Raw/Window.antt =====
-- When the raw drivers act: the sample window of the receiver, and the free time that a transmission
-- waits for.
use avr_cec.Common.{ℕ, ◌+◌, ◌≤◌, ◌<◌, ◌≡◌, ◌⊎◌, arith, Bool, true}
use avr_cec.Macros.Time.{Clock}
use avr_cec.Transmit.{Config, pend, again}
use avr_cec.Receive.Engine.{Node}
use avr_cec.Raw.{Raw, PwmTicks, xmit_idle, add_capped}

-- The sum of two 16-bit times does not run over: it is kept where it fits, and stays at 0xff00 or above
-- otherwise.
pub add_capped_bounds :
    (a b : ℕ)
    → a < 65536
    → b < 65536
    → (add_capped a b < 65536)
      × ((add_capped a b ≡ a + b) ⊎ ((65536 ≤ a + b) × (0xff00 ≤ add_capped a b)))
unfolding add_capped
add_capped_bounds a b h k = ground arith

module _ (k : Clock) (c : Config) (ticks : PwmTicks) where
  -- The line has been high for the wait that the bus requires, a message is queued, and the sender
  -- is at rest.
  pub record MayStart (input : Bool) (delta : ℕ) (n : Node Raw) : Type 0 where
    pub high : input ≡ true
    pub waited : n.tx.needed_idle ≤ add_capped n.drv.pwm.high_timer delta
    pub queued : (n.tx.state ≡ pend) ⊎ (n.tx.state ≡ again)
    pub at_rest : n.drv.pwm.xmit_state ≡ xmit_idle
