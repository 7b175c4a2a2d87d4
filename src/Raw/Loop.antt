-- ===== src/Raw/Loop.antt =====
-- A main loop around the raw receiver: what the builds of cec.c have in common for another host's message.
use avr_cec.Common.{
  ℕ, suc, ◌+◌, ◌*◌, ◌≤◌, ◌<◌, ◌≡◌, refl, ap, ◌∙◌, sym, subst, Bool, true, false, leb, List, [], ◌∷◌,
  length, take, IsBytes,
}
use avr_cec.Macros.Time.{Clock}
use avr_cec.Transmit.{Config}
use avr_cec.Receive.State.{Rx, no_flags, any_flag, header}
use avr_cec.Receive.Engine.{Node}
use avr_cec.Receive.Message.{IsHanded}
use avr_cec.Raw.{Raw, PwmTicks}
use avr_cec.Raw.View.{view, view_call}
use avr_cec.Raw.Wave.{Poll, view_calls, sample_from, sample_to}
use avr_cec.Raw.Pulses.{looks, SeesAll, AreClose, sum}
use avr_cec.Raw.Deliver.{start_pulse, AreWidths, on_line, loads-looks}

-- `step j` is the call that `j` others follow; `own` says which addresses are the host's. While the host
-- is `Ready`, a call is for the receiver a call of `cec_receive_periodic`.
pub record MainLoop (k : Clock) (own : ℕ → Bool) (S : Type 0) : Type 1 where
  pub node : S → Node Raw
  pub step : ℕ → Poll → S → S
  pub Ready : S → Type 0
  pub seen :
      (j : ℕ) (q : Poll) (s : S)
      → Ready s
      → view (node (step j q s)) ≡ view_call k own q.line q.delta (view (node s))
  pub stays : (j : ℕ) (q : Poll) (s : S) → Ready s → Ready (step j q s)

module _ {k : Clock} {own : ℕ → Bool} {S : Type 0} (v : MainLoop k own S) where
  unfoldable pub rounds : List Poll → S → S
  rounds [] s = s
  rounds (q ∷ l) s = rounds l (v.step (length l) q s)

  rounds-view :
      (l : List Poll) (s : S)
      → v.Ready s
      → view (v.node (rounds l s)) ≡ view_calls k own l (view (v.node s))
  unfolding rounds view_calls
  rounds-view [] s e = refl
  rounds-view (q ∷ l) s e =
      rounds-view l (v.step (length l) q s) (v.stays (length l) q s e)
      ∙ ap (view_calls k own l) (v.seen (length l) q s e)

  module _ (c : Config) (g : ℕ) (window : sample_from k + g ≤ sample_to k) (time : ℕ → ℕ)
      (ks : Clock) (cs : Config) (counts : PwmTicks) (fine : AreWidths k g window time counts)
      (heard : ℕ → Rx) (wait : ℕ → ℕ) where
    pub loads-rounds :
        (s : Node Raw) (r : S) (rest : List Bool) (ds : List ℕ) (d x : ℕ)
        → 0 < s.tx.buf_end
        → s.tx.buf_end < length s.tx.buf
        → length s.tx.buf ≡ 16
        → IsBytes s.tx.buf
        → ((i : ℕ) → 0 < i → i < 10 + 10 * s.tx.buf_end → any_flag (heard i).flags ≡ true)
        → AreClose k g ds
        → x ≤ g
        → SeesAll k g
            (x + sum ds)
            (start_pulse k time counts ks cs heard wait s)
            (on_line k time counts ks cs heard wait s rest)
        → v.Ready r
        → length (v.node r).rx.buf ≡ 17 + (v.node r).rx.hdr
        → header (v.node r).rx ≡ 0
        → (v.node r).rx.flags ≡ no_flags
        → (v.node r).drv.sampler.last_state ≡ true
        → (v.node r).drv.sampler.sample ≡ false
        → (let p = start_pulse k time counts ks cs heard wait s in
            IsHanded 0 0
              (take (suc s.tx.buf_end) s.tx.buf)
              (v.node r).rx
              (v.node (
                rounds
                  (record { delta = d; line = leb p.low x }
                    ∷ looks ds x p (on_line k time counts ks cs heard wait s rest))
                  r)).rx)
    loads-rounds s r rest ds d x long fits size ht follows close soon sees ready len free none high
          idle =
        subst (IsHanded 0 0 (take (suc s.tx.buf_end) s.tx.buf) (v.node r).rx)
          (sym (ap (λ u. u.rx) (rounds-view _ r ready)))
          (loads-looks k g window time counts ks cs fine c own heard wait s (v.node r) rest ds d x
            long fits size ht follows close soon sees len free none high idle)
