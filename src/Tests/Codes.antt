-- ===== src/Tests/Codes.antt =====
-- The theorems on the tables of codes.
use avr_cec.Common.{◌≡◌, ◌↔◌}
use avr_cec.Codes.Keys.{key_code, key_red, key_f2}
use avr_cec.Codes.Keys.Table.{first_name}
use avr_cec.Codes.Keys.Shared.{key_code-shared}

key_code-shared_example :
    (key_code key_red ≡ key_code key_f2) ↔ (first_name key_red ≡ first_name key_f2)
key_code-shared_example = key_code-shared key_red key_f2
