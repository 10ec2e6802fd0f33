-- ===== src/Kern/Format/Tests.antt =====
-- A number in base 16.
use no_os.Base.{◌≡◌, true, arith}
use no_os.Kern.Format.{aformat}
use no_os.Kern.Format.Digits.{parse, parse-aformat}

parse-aformat_example : parse 16 0 (aformat 66 16 255 true) ≡ 255
parse-aformat_example =
    parse-aformat 66 16 255 true (omega arith) (omega arith) (omega arith) (omega arith)
