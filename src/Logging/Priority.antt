-- ===== src/Logging/Priority.antt =====
-- `Priority`, `From<Priority> for u8` and `numeric_level`.
use libsystemd_rs.Base.{ℕ, Str, codes, ◌≡◌, refl}
use libsystemd_rs.Decimal

pub data Priority : Type 0 where
  emergency alert critical error warning notice info debug : Priority

unfoldable pub to_u8 : Priority → ℕ
to_u8 emergency = 0
to_u8 alert = 1
to_u8 critical = 2
to_u8 error = 3
to_u8 warning = 4
to_u8 notice = 5
to_u8 info = 6
to_u8 debug = 7

unfoldable pub numeric_level : Priority → Str
numeric_level emergency = codes "0"
numeric_level alert = codes "1"
numeric_level critical = codes "2"
numeric_level error = codes "3"
numeric_level warning = codes "4"
numeric_level notice = codes "5"
numeric_level info = codes "6"
numeric_level debug = codes "7"

-- The text of a priority is the decimal print of its number.
pub numeric_level-to_u8 : (p : Priority) → numeric_level p ≡ Decimal.display (to_u8 p)
unfolding numeric_level to_u8 Decimal.display
numeric_level-to_u8 emergency = refl
numeric_level-to_u8 alert = refl
numeric_level-to_u8 critical = refl
numeric_level-to_u8 error = refl
numeric_level-to_u8 warning = refl
numeric_level-to_u8 notice = refl
numeric_level-to_u8 info = refl
numeric_level-to_u8 debug = refl
