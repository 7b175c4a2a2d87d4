-- ===== src/Macros.antt =====
-- The compile-time arithmetic of div.h, bitops.h and time.h. The type in which a macro computes is
-- that of its arguments, which the build gives (F_CPU among them): `m` is the number of its values.
pub mod Div
pub mod Mul
pub mod Log
pub mod LogAsm
pub mod Time
pub mod Long
pub mod Frequency
pub mod Rollover
