-- ===== src/Common/Examples.antt =====
-- Tests of the formatting.
use nek.Common.{◌≡◌, refl}
use nek.Common.Text.{decimal, hex06, lit}

decimal_example : decimal 65535 ≡ lit "65535"
unfolding decimal lit
decimal_example = refl

hex06_example : hex06 0x30d ≡ lit "0x030d"
unfolding hex06 lit
hex06_example = refl
