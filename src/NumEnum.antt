-- ===== src/NumEnum.antt =====
-- The derives `TryFromPrimitive` of the crate num_enum, which the repository does not hold. A derive
-- is a value of this interface, given the discriminants `as_u8` of the enum. Its laws are the crate's
-- documented behaviour: a number is converted to the variant with that discriminant, and a number
-- that no variant has is handed back in the error (`e.number`).
mod Interface
pub mod Table
pub use Interface.*
