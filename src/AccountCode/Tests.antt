-- ===== src/AccountCode/Tests.antt =====
-- Runs of crates/kuatia-types/src/account_code.rs, after the tests at the end of that file.
use kuatia.Prelude.{◌≡◌, ◌≢◌, refl, arith, [], ◌∷◌, ◌++◌, none, some, ok, panic, pos, length}
use kuatia.Types.{AccountId}
use kuatia.Prelude.Text.{Text}
use kuatia.AccountCode.Feistel.{default_id_seed}
use kuatia.AccountCode.Code.{account_code, from_str, to_grouped}
use kuatia.AccountCode.Code.RoundTrip.{from_str-account_code}
use kuatia.AccountCode.Code.Rejects.{from_str-panics, from_str-ne-none}

abbrev five_seven : AccountId
five_seven = record { id = pos 5; sub = pos 7 }

from_str-account_code_example :
    (code : Text) × (account_code default_id_seed five_seven ≡ some code)
    × (length code ≡ 20)
    × (from_str default_id_seed code ≡ some (ok five_seven))
    × (from_str default_id_seed (to_grouped code) ≡ some (ok five_seven))
from_str-account_code_example =
    from_str-account_code default_id_seed 5 7 (omega arith) (omega arith)

-- Seventeen zeros, a Greek letter and a digit.
abbrev seventeen : Text
seventeen = 48 ∷ 48 ∷ 48 ∷ 48 ∷ 48 ∷ 48 ∷ 48 ∷ 48 ∷ 48 ∷ 48 ∷ 48 ∷ 48 ∷ 48 ∷ 48 ∷ 48 ∷ 48 ∷ 48 ∷ []

from_str-panics_example : from_str default_id_seed (seventeen ++ (0x3b1 ∷ b'7' ∷ [])) ≡ some panic
from_str-panics_example =
    from_str-panics default_id_seed seventeen 0x3b1 b'7' refl (ground arith) (omega arith) refl

from_str-ne-none_example : from_str default_id_seed seventeen ≢ none
from_str-ne-none_example = from_str-ne-none default_id_seed seventeen
