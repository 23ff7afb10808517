-- ===== src/Tests/Text.antt =====
-- The printing of numbers.
use bcrstracking.Prelude.{◌≡◌, refl}
use bcrstracking.Text.{decimal}

decimal_test : decimal 40960 ≡ "40960"
unfolding decimal
decimal_test = refl
