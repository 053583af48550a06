-- ===== src/Tests/Amounts.antt =====
-- A token amount at a concrete text.
use slipvolt.Base.{◌≡◌, refl}
use slipvolt.Base.Int.{pos}
use slipvolt.Base.Result.{ok}
use slipvolt.Value.{int, str}
use slipvolt.Burn.{amount_to_raw, raw_of_value, raw_of_text, raw_of_parts}
use slipvolt.Burn.Exact.{IsRead, amount_to_raw-exact}

read : amount_to_raw (str "12.05") (int (pos 6)) ≡ ok 12050000
unfolding amount_to_raw raw_of_value raw_of_text raw_of_parts
read = refl

amount_to_raw-exact_example : IsRead "12.05" 6 12050000
amount_to_raw-exact_example = amount_to_raw-exact "12.05" 6 12050000 read
