-- ===== src/Money/Amount/Tests.antt =====
-- Runs of `Amount` in crates/kuatia-money/src/lib.rs.
use kuatia.Prelude.{◌≡◌, arith, ok, negsuc}
use kuatia.Money.Amount.{parse, format}
use kuatia.Money.Amount.RoundTrip.{parse-format}

-- -1234.05
parse-format_example : parse 2 (format 2 (negsuc 123404)) ≡ ok (negsuc 123404)
parse-format_example = parse-format 1 (negsuc 123404) (omega arith) (omega arith)
