-- ===== src/Utility/Examples.antt =====
-- The inputs of test/shrinkler_gba_unit_test/utility_test.cpp.
use shrinkler_gba.Utility.{adler32, base}
use shrinkler_gba.Utility.Adler.{adler32_lem, adler32-set_ne, sum, weighted_sum}
use shrinkler_gba.Base.{ℕ, List, [], set, ◌≡◌, codes, length, refl, ◌≢◌, arith, ◌+◌, ◌%◌, ◌*◌, ◌^◌}
use shrinkler_gba.Utility.Signed.{to_signed, pos, negsuc}

abbrev abc : List ℕ
abc = codes "abc"

adler32_of_nothing : adler32 [] ≡ 1
unfolding adler32
adler32_of_nothing = refl

adler32_of_abc : adler32 abc ≡ 0x024d0127
unfolding adler32
adler32_of_abc = refl

adler32_lem_example :
    adler32 abc ≡ (length abc + weighted_sum abc) % base * 2 ^ 16 + (1 + sum abc) % base
adler32_lem_example = adler32_lem abc (omega arith)

adler32-set_ne_example : adler32 (set abc 1 b'B') ≢ adler32 abc
adler32-set_ne_example =
    adler32-set_ne abc 1 b'B' (omega arith) (omega arith) (omega arith) (omega arith)

-- The value that the panic routine loads, and a positive one.
to_signed_of_panic : to_signed 0xc0ded00d ≡ negsuc 0x3f212ff2
unfolding to_signed
to_signed_of_panic = refl

to_signed_of_largest : to_signed 0x7fffffff ≡ pos 0x7fffffff
unfolding to_signed
to_signed_of_largest = refl
