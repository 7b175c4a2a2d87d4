-- ===== src/Tests/Addresses.antt =====
-- The theorems on addresses, on a bus with a playback device on the first of three addresses.
use avr_cec.Common.{some, ℕ, ◌%◌, ◌≡◌, arith, Bool, true, ◌==◌, get_or, if◌then◌else◌, IsBytes}
use avr_cec.Spec.{dev_addrs, dev_playback_device}
use avr_cec.Transmit.{Tx, idle, failed, pend, is}
use avr_cec.Addr.DevType.{Host, addr_init, addr_ready}
use avr_cec.Addr.DevType.Claim.{Bus, rounds, rounds-addr_init}
use avr_cec.Addr.DevType.Table.{cec_dev_addrs, addresses_of, is_one_of, rounds-cec_dev_addrs}
use avr_cec.Tests.{question, free_rx, cons-IsBytes, zeros-IsBytes}

abbrev taken : ℕ → Bool
taken a = a == 4

abbrev polled : Tx → Tx
polled t =
    if is t.state pend
    then record t { state = if taken (get_or t.buf 0 0 % 16) then idle else failed }
    else t

bus : Bus taken
bus = record {
  poll = polled;
  answered = λ t e h. ground arith;
  refused = λ t e h. ground arith;
  buf_kept = λ t. ground arith;
  at_rest = λ t h. ground arith;
}

addrs-IsBytes : IsBytes (dev_addrs dev_playback_device)
addrs-IsBytes = grind (arith, cons-IsBytes, zeros-IsBytes)

abbrev host : Host
host = record { logical = 4; idx = 3; rx = free_rx; tx = question }

rounds-addr_init_example :
    (let g = rounds taken bus (dev_addrs dev_playback_device) 4 (addr_init host) in
      (g.logical ≡ 8) × (addr_ready g ≡ true))
rounds-addr_init_example =
    rounds-addr_init taken bus (dev_addrs dev_playback_device) host (omega arith) (omega arith)
      addrs-IsBytes

rounds-cec_dev_addrs_example :
    (cec_dev_addrs 4 ≡ some (dev_addrs dev_playback_device))
    × (let g = rounds taken bus (dev_addrs dev_playback_device) 4 (addr_init host) in
        (is_one_of g.logical (addresses_of dev_playback_device) ≡ true) × (addr_ready g ≡ true))
rounds-cec_dev_addrs_example = rounds-cec_dev_addrs taken bus dev_playback_device host (omega arith)
