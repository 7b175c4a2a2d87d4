-- ===== src/Addr/Static.antt =====
-- cec_addr_bitfield.c, cec_addr_fixed.c and cec_addr_none.c: addresses that the application or the
-- build gives.
use avr_cec.Common.{
  ◌∙◌, sym, ℕ, ◌+◌, ◌*◌, ◌^◌, ◌<◌, ◌≡◌, arith, bit_and, bit_or, bit_or-nibbles, Bool, true, false,
  truth, ◌==◌, u8,
}

-- `cec_addr_build` of the bit field: the application gives the source.
unfoldable pub bitfield_build : ℕ → ℕ → ℕ
bitfield_build source target = u8 (bit_or (source * 16) target)

-- `cec_addr_match` of the bit field `logical_addresses`.
unfoldable pub bitfield_match : ℕ → ℕ → Bool
bitfield_match logical_addresses a = truth (bit_and logical_addresses (2 ^ a))

-- `cec_addr_init` clears the bit field.
unfoldable pub bitfield_init : ℕ → ℕ
bitfield_init logical_addresses = 0

-- `cec_addr_build` and `cec_addr_match` at CEC_FIXED_LOGICAL_ADDRESS.
unfoldable pub fixed_build : ℕ → ℕ → ℕ → ℕ
fixed_build own source target = u8 (bit_or (own * 16) target)

unfoldable pub fixed_match : ℕ → ℕ → Bool
fixed_match own a = a == own

-- `cec_addr_match` of a host that only listens.
unfoldable pub none_match : ℕ → Bool
none_match a = false

-- The three modules: `cec_addr_match`, and `cec_addr_init`, which only the bit field has; in none of them
-- does `cec_addr_periodic` do anything.
pub data Addresses : Type 0 where
  bitfield fixed : ℕ → Addresses
  nobody : Addresses

unfoldable pub static_match : Addresses → ℕ → Bool
unfolding bitfield_match fixed_match none_match
static_match (bitfield l) a = bitfield_match l a
static_match (fixed own) a = fixed_match own a
static_match nobody a = none_match a

-- `cec_addr_ready`: whether the host has an address.
unfoldable pub static_ready : Addresses → Bool
static_ready (bitfield l) = true
static_ready (fixed own) = true
static_ready nobody = false

unfoldable pub static_init : Addresses → Addresses
unfolding bitfield_init
static_init (bitfield l) = bitfield (bitfield_init l)
static_init (fixed own) = fixed own
static_init nobody = nobody

-- A header byte holds the initiator in its high nibble and the target in its low one, whether the
-- application or the build gives the initiator.
pub static_build_fields :
    (own other target : ℕ)
    → own < 16
    → target < 16
    → (bitfield_build own target ≡ own * 16 + target)
      × (fixed_build own other target ≡ own * 16 + target)
unfolding bitfield_build fixed_build
static_build_fields own other target h k = omega (arith, bit_or-nibbles own target h k)

-- `MAKE_ADDRESS` of cec_spec.h.
unfoldable pub make_address : ℕ → ℕ → ℕ
make_address s d = bit_or (s * 16) d

pub make_address-fixed_build :
    (own other target : ℕ)
    → own < 16
    → target < 16
    → make_address own target ≡ fixed_build own other target
unfolding make_address
make_address-fixed_build own other target h k =
    bit_or-nibbles own target h k ∙ sym (static_build_fields own other target h k).1
