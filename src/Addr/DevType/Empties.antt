-- ===== src/Addr/DevType/Empties.antt =====
-- What `cec_addr_periodic` does to the receive buffer while it looks for an address.
use avr_cec.Common.{ℕ, zero, suc, ◌≡◌, refl, arith, List, [], ◌∷◌, get_or, set}
use avr_cec.Receive.State.{header}
use avr_cec.Addr.DevType.{Host, addr_ready, addr_periodic}

-- While the host has no address, each call empties the receive buffer.
dropped : (l : List ℕ) (i : ℕ) → get_or (set l i 0) i 0 ≡ 0
dropped [] i = refl
dropped (x ∷ l) zero = refl
dropped (x ∷ l) (suc i) = dropped l i

pub addr_periodic-header :
    (addrs : List ℕ) (h : Host) → h.logical ≡ 0xff → header (addr_periodic addrs h).rx ≡ 0
unfolding addr_periodic addr_ready
addr_periodic-header addrs h e = ground (arith, e, dropped h.rx.buf h.rx.hdr)
