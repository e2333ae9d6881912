-- ===== src/Units.antt =====
-- src/units/: amounts of the currency.
pub mod Raw
pub mod Unit
