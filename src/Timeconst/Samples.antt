-- ===== src/Timeconst/Samples.antt =====
-- Runs of programs/bc4linux.c on concrete frequencies.
use punchcardos.Prelude.{◌≡◌, refl, some, true, [], ◌++◌, arith, codes}
use punchcardos.Sys.{got}
use punchcardos.Timeconst.Bounds.{FindsShift, fmuls-IsNormal}
use punchcardos.Timeconst.Decimal.Print.{IsDecimal, itoa-IsDecimal}
use punchcardos.Timeconst.Decimal.Scan.{atoi-itoa}
use punchcardos.Timeconst.Decimal.{atoi, itoa}
use punchcardos.Timeconst.Emit.Whole.{WritesFile, main-file}
use punchcardos.Timeconst.Emit.{main}
use punchcardos.Timeconst.Fixed.{fmuls}

main-file_example : WritesFile 250 (main true (got (itoa 250 ++ codes "\n"))) []
main-file_example = main-file 250 (codes "\n") (omega arith) (omega arith) refl []

fmuls-IsNormal_example : FindsShift 1_000 250 (fmuls 32 1_000 250)
fmuls-IsNormal_example =
    fmuls-IsNormal 1_000 250 (omega arith) (omega arith) (omega arith) (omega arith)

itoa-IsDecimal_example : IsDecimal 1_073_741_824 (itoa 1_073_741_824)
itoa-IsDecimal_example = itoa-IsDecimal 1_073_741_824 (omega arith)

atoi-itoa_example : atoi (itoa 250 ++ codes "\n") ≡ some 250
atoi-itoa_example = atoi-itoa 250 (codes "\n") (omega arith) refl
