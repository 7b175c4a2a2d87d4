-- ===== src/Transmit/Sender.antt =====
-- What a hardware driver that sends bit after bit requires and does: the interface through which both
-- drivers' transmissions are shown to be those of the engine.
use avr_cec.Common.{
  ℕ, zero, suc, ◌+◌, ◌≤◌, ◌<◌, ◌≡◌, ◌≢◌, ap, ap₂, ◌∙◌, sym, subst, arith, Bool, List, [], ◌∷◌, ◌*◌,
  length, take, IsBytes,
}
use avr_cec.Transmit.{Config, Tx, wait_for_ack, get_bit, start}
use avr_cec.Transmit.Frame.{emit}
use avr_cec.Transmit.Left.{IsLeft, IsLeft-step, IsLeft-last, emit_wait, start-IsLeft}
use avr_cec.Transmit.Layout.{message_bits}
use avr_cec.Transmit.Emit.{emit-start}

-- A driver with states `S`, of which `tx` is the engine's part. `step j` asks for a bit that `j` others
-- follow, and gives what goes to the hardware for it, `show` of the bit; `Going j` says that the driver
-- is ready to do so, and `Done` that it has sent the last one. Before it asks, the wait may change.
pub record Sender (c : Config) (S : Type 0) : Type 1 where
  pub tx : S → Tx
  pub show : Bool → ℕ
  pub step : ℕ → S → S × ℕ
  pub Going : ℕ → S → Type 0
  pub Done : S → Type 0
  pub wait : ℕ → S → ℕ
  pub asks :
      (j : ℕ) (s : S)
      → Going j s
      → (let t = tx s in
          let g = get_bit c (record t { needed_idle = wait j s }) in
          (tx (step j s).0 ≡ g.0) × ((step j s).1 ≡ show g.1))
  pub goes_on :
      (j : ℕ) (s : S)
      → Going (suc j) s
      → (tx (step (suc j) s).0).state ≢ wait_for_ack
      → Going j (step (suc j) s).0
  pub ends : (s : S) → Going 0 s → (tx (step 0 s).0).state ≡ wait_for_ack → Done (step 0 s).0

abbrev pub shown : {A : Type 0} → (Bool → A) → List Bool → List A
shown show [] = []
shown show (b ∷ bs) = show b ∷ shown show bs

module _ {c : Config} {S : Type 0} (v : Sender c S) where
  unfoldable pub sends : ℕ → S → S × List ℕ
  sends zero s = (s, [])
  sends (suc j) s = let (s', x) = v.step j s in let (u, l) = sends j s' in (u, x ∷ l)

  IsLeft-wait : (t : Tx) (w r : ℕ) → IsLeft t r → IsLeft (record t { needed_idle = w }) r
  IsLeft-wait t w r l = record { pos_in = l.pos_in; end_byte = l.end_byte; place = l.place }

  -- With `suc j` bits left of a transmission, as many steps show its bits, and end it.
  pub sends-emit :
      (j : ℕ) (s : S)
      → IsLeft (v.tx s) (suc j)
      → v.Going j s
      → ((sends (suc j) s).1 ≡ shown v.show (emit c (suc j) (v.tx s)).1)
        × v.Done (sends (suc j) s).0
        × ((v.tx (sends (suc j) s).0).state ≡ wait_for_ack)
  unfolding sends emit
  sends-emit zero s l g =
      let t = v.tx s in
      let a = v.asks 0 s g in
      let e = IsLeft-last c _ (IsLeft-wait t (v.wait 0 s) 1 l) in
      let over = ap (λ u. u.state) a.0 ∙ e in
      (
        ap (λ x. x ∷ []) a.1 ∙ ap (shown v.show) (emit_wait c 1 t (v.wait 0 s)),
        v.ends s g over,
        over,
      )
  sends-emit (suc j) s l g =
      let t = v.tx s in
      let w = v.wait (suc j) s in
      let a = v.asks (suc j) s g in
      let z = IsLeft-step c _ j (IsLeft-wait t w (suc (suc j)) l) in
      let r =
        sends-emit j (v.step (suc j) s).0 (subst (λ u. IsLeft u (suc j)) (sym a.0) z.0)
          (v.goes_on j s g (λ e. z.1 (ap (λ u. u.state) (sym a.0) ∙ e))) in
      (
        ap₂ ◌∷◌ a.1 (r.0 ∙ ap (λ u. shown v.show (emit c (suc j) u).1) a.0)
            ∙ ap (shown v.show) (emit_wait c (suc (suc j)) t w),
        r.1,
        r.2,
      )

  -- A whole transmission.
  pub sends-start :
      (t : Tx) (s : S)
      → t.buf_end < length t.buf
      → length t.buf ≤ 256
      → IsBytes t.buf
      → v.tx s ≡ start c t
      → v.Going (9 + 10 * t.buf_end) s
      → (let p = sends (suc (9 + 10 * t.buf_end)) s in
          (p.1 ≡ shown v.show (message_bits (take (suc t.buf_end) t.buf)))
          × v.Done p.0
          × ((v.tx p.0).state ≡ wait_for_ack))
  sends-start t s h b m e g =
      let l = start-IsLeft c t (omega arith) in
      let r =
        sends-emit (9 + 10 * t.buf_end) s
          (subst (λ u. IsLeft u (suc (9 + 10 * t.buf_end))) (sym e) l) g in
      let calls : suc (9 + 10 * t.buf_end) ≡ 10 * suc t.buf_end = omega arith in
      (
        r.0
            ∙ ap (λ u. shown v.show (emit c (suc (9 + 10 * t.buf_end)) u).1) e
            ∙ ap (λ j. shown v.show (emit c j (start c t)).1) calls
            ∙ ap (shown v.show) (emit-start c t h b m).1,
        r.1,
        r.2,
      )
