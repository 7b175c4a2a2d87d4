-- ===== src/Addr/DevType/Claim.antt =====
-- Which address a host ends up with.
use avr_cec.Common.{
  ℕ, zero, suc, ◌+◌, ◌%◌, ◌<◌, ◌≡◌, ◌≢◌, refl, ap, sym, subst, ◌∙◌, arith, bit_and-nibble, Bool,
  true, false, List, [], ◌∷◌, length, get_or, set, get_or-set_self, length-set, if◌then◌else◌,
  Bool-cases, inl, inr, IsBytes,
}
use native.Mathlib.Nat.{zero-add, add-zero}
use avr_cec.Transmit.{Tx, idle, pend, failed}
use avr_cec.Addr.DevType.{Host, drop_message, addr_init, addr_ready, addr_periodic}

-- The bus as a poll meets it: `taken` tells which addresses another host answers for. A poll that is
-- answered comes to an end, one that is not fails; nothing else is changed.
pub record Bus (taken : ℕ → Bool) : Type 0 where
  pub poll : Tx → Tx
  pub answered :
      (t : Tx) → t.state ≡ pend → taken (get_or t.buf 0 0 % 16) ≡ true → (poll t).state ≡ idle
  pub refused :
      (t : Tx) → t.state ≡ pend → taken (get_or t.buf 0 0 % 16) ≡ false → (poll t).state ≡ failed
  pub buf_kept : (t : Tx) → (poll t).buf ≡ t.buf
  pub at_rest : (t : Tx) → t.state ≢ pend → poll t ≡ t

-- The first address of the table that nobody answers for, and the unregistered one if there is none.
abbrev pub first_free : (ℕ → Bool) → List ℕ → ℕ
first_free taken [] = 15
first_free taken (a ∷ l) = if taken (a % 16) then first_free taken l else a % 16

module _ (taken : ℕ → Bool) (bus : Bus taken) (addrs : List ℕ) where
  -- `cec_addr_periodic`, and what the bus then makes of a queued poll.
  pub round : Host → Host
  round h = let g = addr_periodic addrs h in record g { tx = bus.poll g.tx }

  pub rounds : ℕ → Host → Host
  rounds zero h = h
  rounds (suc k) h = rounds k (round h)

  round_ready : (h : Host) → addr_ready h ≡ true → h.tx.state ≢ pend → round h ≡ h
  unfolding round addr_periodic
  round_ready h e n = ground (arith, e, bus.at_rest h.tx n)

  rounds_ready : (k : ℕ) (h : Host) → addr_ready h ≡ true → h.tx.state ≢ pend → rounds k h ≡ h
  unfolding rounds
  rounds_ready zero h e n = refl
  rounds_ready (suc k) h e n = ap (rounds k) (round_ready h e n) ∙ rounds_ready k h e n

  -- No address is assigned, and the transmit side is free: `i` addresses are used up.
  record IsPolling (i : ℕ) (h : Host) : Type 0 where
    open_yet : h.logical ≡ 255
    used : h.idx ≡ i
    free : h.tx.state ≡ idle
    room : 0 < length h.tx.buf

  round_last :
      (h : Host)
      → IsPolling (length addrs) h
      → ((round h).logical ≡ 15) × ((round h).tx.state ≡ idle)
  unfolding round addr_periodic addr_ready
  round_last h p = ground (arith, p.open_yet, p.used, p.free, bus.at_rest h.tx)

  -- The transmit side with the poll of the `i`th address queued.
  abbrev queued : ℕ → Host → Tx
  queued i h =
      let t = h.tx in record t { buf = set t.buf 0 (get_or addrs i 0); buf_end = 0; state = pend }

  periodic_queues :
      (i : ℕ) (h : Host)
      → IsPolling i h
      → i < length addrs
      → length addrs < 256
      → addr_periodic addrs h
        ≡ (let g = drop_message h in record g { idx = i + 1; tx = queued i h })
  unfolding addr_periodic addr_ready
  periodic_queues i h p l m = ground (arith, p.open_yet, p.used, p.free)

  queued_poll : (i : ℕ) (h : Host) → IsPolling i h → get_or (queued i h).buf 0 0 ≡ get_or addrs i 0
  queued_poll i h p = get_or-set_self h.tx.buf 0 (get_or addrs i 0) 0 p.room

  round_next :
      (i : ℕ) (h : Host)
      → IsPolling i h
      → i < length addrs
      → length addrs < 256
      → taken (get_or addrs i 0 % 16) ≡ true
      → IsPolling (i + 1) (round h)
  unfolding round
  round_next i h p l m t = rw (periodic_queues i h p l m) (record {
    open_yet = p.open_yet;
    used = refl;
    free = bus.answered (queued i h) refl (rw (queued_poll i h p) t);
    room = rw (bus.buf_kept (queued i h), length-set h.tx.buf 0 (get_or addrs i 0)) p.room;
  })

  round_refused :
      (i : ℕ) (h : Host)
      → IsPolling i h
      → i < length addrs
      → length addrs < 256
      → taken (get_or addrs i 0 % 16) ≡ false
      → ((round h).logical ≡ 255)
        × ((round h).tx.state ≡ failed)
        × (get_or (round h).tx.buf 0 0 ≡ get_or addrs i 0)
  unfolding round
  round_refused i h p l m t = rw (periodic_queues i h p l m) (
    p.open_yet,
    bus.refused (queued i h) refl (rw (queued_poll i h p) t),
    rw (bus.buf_kept (queued i h)) (queued_poll i h p),
  )

  round_settles :
      (x : ℕ) (g : Host)
      → x < 256
      → g.logical ≡ 255
      → g.tx.state ≡ failed
      → get_or g.tx.buf 0 0 ≡ x
      → ((round g).logical ≡ x % 16) × ((round g).tx.state ≡ failed)
  unfolding round addr_periodic addr_ready
  round_settles x g b o f e = ground (arith, bus.at_rest g.tx, bit_and-nibble x b)

  ready_below : (h : Host) → h.logical < 255 → addr_ready h ≡ true
  unfolding addr_ready
  ready_below h l = ground arith

  first_free-lt : (l : List ℕ) → first_free taken l < 16
  first_free-lt [] = omega arith
  first_free-lt (a ∷ l) = ground (arith, first_free-lt l)

  -- `l` is what the table holds from index `i` on.
  record IsRest (i : ℕ) (l : List ℕ) : Type 0 where
    sizes : i + length l ≡ length addrs
    items : (j : ℕ) → get_or addrs (i + j) 0 ≡ get_or l j 0

  rest_head : (i a : ℕ) (l : List ℕ) → IsRest i (a ∷ l) → get_or addrs i 0 ≡ a
  rest_head i a l r = ap (λ k. get_or addrs k 0) (sym (add-zero i)) ∙ r.items 0

  IsRest-tail : (i a : ℕ) (l : List ℕ) → IsRest i (a ∷ l) → IsRest (i + 1) l
  IsRest-tail i a l r = record {
    sizes = omega (arith, r.sizes);
    items = λ j.
        let e : i + 1 + j ≡ i + suc j = omega arith in
        ap (λ k. get_or addrs k 0) e ∙ r.items (suc j);
  }

  rounds_claim :
      (l : List ℕ) (i : ℕ) (h : Host)
      → IsRest i l
      → IsPolling i h
      → length addrs < 256
      → IsBytes addrs
      → (rounds (suc (length l)) h).logical ≡ first_free taken l
  unfolding rounds
  rounds_claim [] i h r p m b =
      (round_last h (subst (λ k. IsPolling k h) (omega (arith, r.sizes)) p)).0
  rounds_claim (a ∷ l) i h r p m b = elim (Bool-cases (taken (a % 16))) [
    | inl t ↦ rw t (
        rounds_claim l (i + 1) (round h) (IsRest-tail i a l r)
          (round_next i h p (omega (arith, r.sizes)) m (rw (rest_head i a l r) t)) m b)
    | inr t ↦
        rw t (claimed (round_refused i h p (omega (arith, r.sizes)) m (rw (rest_head i a l r) t)))
  ]
    where
      claimed :
          ((round h).logical ≡ 255)
            × ((round h).tx.state ≡ failed)
            × (get_or (round h).tx.buf 0 0 ≡ get_or addrs i 0)
          → (rounds (length l) (round (round h))).logical ≡ a % 16
      claimed q =
          let byte : a < 256 = rw (rest_head i a l r) at (b i) in
          let s = round_settles a (round h) byte q.0 q.1 (q.2 ∙ rest_head i a l r) in
          let ready = ready_below (round (round h)) (omega (arith, s.0)) in
          ap (λ g. g.logical)
            (rounds_ready (length l) (round (round h)) ready (ground (arith, s.1)))
          ∙ s.0

  init-IsPolling : (h : Host) → 0 < length h.tx.buf → IsPolling 0 (addr_init h)
  unfolding addr_init
  init-IsPolling h r = record { open_yet = refl; used = refl; free = refl; room = r }

  -- From `cec_addr_init` on, one round more than the table has addresses gives the host the first
  -- address of its table that nobody answers for, or the unregistered address if all are answered
  -- for; and the assignment is then complete. The table holds fewer than 256 bytes, the transmit
  -- buffer is not empty, and every poll is answered or fails.
  pub rounds-addr_init :
      (h : Host)
      → 0 < length h.tx.buf
      → length addrs < 256
      → IsBytes addrs
      → (let g = rounds (suc (length addrs)) (addr_init h) in
          (g.logical ≡ first_free taken addrs) × (addr_ready g ≡ true))
  rounds-addr_init h r m b =
      let e =
        rounds_claim addrs 0 (addr_init h)
          (record { sizes = omega arith; items = λ j. ap (λ k. get_or addrs k 0) (zero-add j) })
          (init-IsPolling h r) m b in
      (e, ready_below _ (omega (arith, e, first_free-lt addrs)))
