-- ===== src/Addr/DevType/Table.antt =====
-- cec_addr_dev_type.c: the table `cec_dev_addrs` of the build, by CEC_DEV_TYPE, and the addresses that a
-- device of each type is given.
use avr_cec.Common.{
  ℕ, suc, ◌<◌, ◌≡◌, ◌==◌, refl, ap, ◌∙◌, arith, Bool, true, ◌||◌, List, [], ◌∷◌, length, Option,
  some, none, if◌then◌else◌, IsBytes, cons-IsBytes, zeros-IsBytes,
}
use avr_cec.Spec.{
  Address, addr, tv, recording_device_1, recording_device_2, recording_device_3, tuner_1, tuner_2,
  tuner_3, tuner_4, playback_device_1, playback_device_2, playback_device_3, audio_system,
  specific_use, unregistered, DevType, dev_addrs, dev_tv, dev_recording_device, dev_tuner,
  dev_playback_device, dev_audio_system, dev_switch, dev_video_processor, dev_code,
}
use avr_cec.Addr.DevType.{Host, addr_init, addr_ready}
use avr_cec.Addr.DevType.Claim.{Bus, first_free, rounds, rounds-addr_init}

-- `cec_dev_addrs`; `none` is the `#error` of a type that is not known.
unfoldable pub cec_dev_addrs : ℕ → Option (List ℕ)
cec_dev_addrs t =
    if t == dev_code dev_tv
    then some (dev_addrs dev_tv)
    else (if t == dev_code dev_recording_device
        then some (dev_addrs dev_recording_device)
        else (if t == dev_code dev_tuner
            then some (dev_addrs dev_tuner)
            else (if t == dev_code dev_playback_device
                then some (dev_addrs dev_playback_device)
                else (if t == dev_code dev_audio_system
                    then some (dev_addrs dev_audio_system)
                    else (if t == dev_code dev_switch
                        then some (dev_addrs dev_switch)
                        else (if t == dev_code dev_video_processor
                            then some (dev_addrs dev_video_processor)
                            else none))))))

-- The logical addresses of the kinds of device.
abbrev pub addresses_of : DevType → List Address
addresses_of dev_tv = tv ∷ specific_use ∷ []
addresses_of dev_recording_device =
    recording_device_1 ∷ recording_device_2 ∷ recording_device_3 ∷ []
addresses_of dev_tuner = tuner_1 ∷ tuner_2 ∷ tuner_3 ∷ tuner_4 ∷ []
addresses_of dev_playback_device = playback_device_1 ∷ playback_device_2 ∷ playback_device_3 ∷ []
addresses_of dev_audio_system = audio_system ∷ []
addresses_of dev_switch = []
addresses_of dev_video_processor = specific_use ∷ []

abbrev pub is_one_of : ℕ → List Address → Bool
is_one_of x [] = x == addr unregistered
is_one_of x (a ∷ l) = (x == addr a) || is_one_of x l

first_free-is_one_of :
    (taken : ℕ → Bool) (t : DevType)
    → is_one_of (first_free taken (dev_addrs t)) (addresses_of t) ≡ true
first_free-is_one_of taken dev_tv = ground arith
first_free-is_one_of taken dev_recording_device = ground arith
first_free-is_one_of taken dev_tuner = ground arith
first_free-is_one_of taken dev_playback_device = ground arith
first_free-is_one_of taken dev_audio_system = ground arith
first_free-is_one_of taken dev_switch = refl
first_free-is_one_of taken dev_video_processor = ground arith

dev_addrs-IsBytes : (t : DevType) → IsBytes (dev_addrs t)
dev_addrs-IsBytes dev_tv = grind (arith, cons-IsBytes, zeros-IsBytes)
dev_addrs-IsBytes dev_recording_device = grind (arith, cons-IsBytes, zeros-IsBytes)
dev_addrs-IsBytes dev_tuner = grind (arith, cons-IsBytes, zeros-IsBytes)
dev_addrs-IsBytes dev_playback_device = grind (arith, cons-IsBytes, zeros-IsBytes)
dev_addrs-IsBytes dev_audio_system = grind (arith, cons-IsBytes, zeros-IsBytes)
dev_addrs-IsBytes dev_switch = grind (arith, cons-IsBytes, zeros-IsBytes)
dev_addrs-IsBytes dev_video_processor = grind (arith, cons-IsBytes, zeros-IsBytes)

table : (t : DevType) → cec_dev_addrs (dev_code t) ≡ some (dev_addrs t)
unfolding cec_dev_addrs
table dev_tv = refl
table dev_recording_device = refl
table dev_tuner = refl
table dev_playback_device = refl
table dev_audio_system = refl
table dev_switch = refl
table dev_video_processor = refl

dev_addrs-length : (t : DevType) → length (dev_addrs t) < 256
dev_addrs-length dev_tv = omega arith
dev_addrs-length dev_recording_device = omega arith
dev_addrs-length dev_tuner = omega arith
dev_addrs-length dev_playback_device = omega arith
dev_addrs-length dev_audio_system = omega arith
dev_addrs-length dev_switch = omega arith
dev_addrs-length dev_video_processor = omega arith

module _ (taken : ℕ → Bool) (bus : Bus taken) where
  -- A build for any of the known types has a table, and a host of that build gets an address: within one
  -- round more than the table has entries, the assignment is complete, and the logical address is one
  -- that belongs to the type, or the unregistered one. The transmit buffer is not empty, and every
  -- poll is answered or fails.
  pub rounds-cec_dev_addrs :
      (t : DevType) (h : Host)
      → 0 < length h.tx.buf
      → (cec_dev_addrs (dev_code t) ≡ some (dev_addrs t))
        × (let g = rounds taken bus (dev_addrs t) (suc (length (dev_addrs t))) (addr_init h) in
            (is_one_of g.logical (addresses_of t) ≡ true) × (addr_ready g ≡ true))
  rounds-cec_dev_addrs t h r =
      let (e, ready) =
        rounds-addr_init taken bus (dev_addrs t) h r (dev_addrs-length t) (dev_addrs-IsBytes t) in
      (table t, (ap (λ x. is_one_of x (addresses_of t)) e ∙ first_free-is_one_of taken t, ready))
