-- ===== src/Math/Fixed/Table.antt =====
-- The sines of `i` times 2π / 256: `sin_table` of src/math/fixedpoint.cpp.
use osito_k.Base.{ℕ, List, [], ◌∷◌}

-- A negative number stands as its bit pattern.
abbrev pub sin_table : List ℕ
sin_table =
    0 ∷ 1608 ∷ 3216 ∷ 4821 ∷ 6424 ∷ 8022 ∷ 9616 ∷ 11204 ∷ 12785 ∷ 14359 ∷ 15924 ∷ 17479 ∷ 19024
    ∷ 20557 ∷ 22078 ∷ 23586 ∷ 25080 ∷ 26558 ∷ 28020 ∷ 29466 ∷ 30893 ∷ 32303 ∷ 33692 ∷ 35062 ∷ 36410
    ∷ 37736 ∷ 39040 ∷ 40320 ∷ 41576 ∷ 42806 ∷ 44011 ∷ 45190 ∷ 46341 ∷ 47464 ∷ 48559 ∷ 49624 ∷ 50660
    ∷ 51665 ∷ 52639 ∷ 53581 ∷ 54491 ∷ 55368 ∷ 56212 ∷ 57022 ∷ 57798 ∷ 58538 ∷ 59244 ∷ 59914 ∷ 60547
    ∷ 61145 ∷ 61705 ∷ 62228 ∷ 62714 ∷ 63162 ∷ 63572 ∷ 63944 ∷ 64277 ∷ 64571 ∷ 64827 ∷ 65043 ∷ 65220
    ∷ 65358 ∷ 65457 ∷ 65516 ∷ 65536 ∷ 65516 ∷ 65457 ∷ 65358 ∷ 65220 ∷ 65043 ∷ 64827 ∷ 64571 ∷ 64277
    ∷ 63944 ∷ 63572 ∷ 63162 ∷ 62714 ∷ 62228 ∷ 61705 ∷ 61145 ∷ 60547 ∷ 59914 ∷ 59244 ∷ 58538 ∷ 57798
    ∷ 57022 ∷ 56212 ∷ 55368 ∷ 54491 ∷ 53581 ∷ 52639 ∷ 51665 ∷ 50660 ∷ 49624 ∷ 48559 ∷ 47464 ∷ 46341
    ∷ 45190 ∷ 44011 ∷ 42806 ∷ 41576 ∷ 40320 ∷ 39040 ∷ 37736 ∷ 36410 ∷ 35062 ∷ 33692 ∷ 32303 ∷ 30893
    ∷ 29466 ∷ 28020 ∷ 26558 ∷ 25080 ∷ 23586 ∷ 22078 ∷ 20557 ∷ 19024 ∷ 17479 ∷ 15924 ∷ 14359 ∷ 12785
    ∷ 11204 ∷ 9616 ∷ 8022 ∷ 6424 ∷ 4821 ∷ 3216 ∷ 1608 ∷ 0 ∷ 4294965688 ∷ 4294964080 ∷ 4294962475
    ∷ 4294960872 ∷ 4294959274 ∷ 4294957680 ∷ 4294956092 ∷ 4294954511 ∷ 4294952937 ∷ 4294951372
    ∷ 4294949817 ∷ 4294948272 ∷ 4294946739 ∷ 4294945218 ∷ 4294943710 ∷ 4294942216 ∷ 4294940738
    ∷ 4294939276 ∷ 4294937830 ∷ 4294936403 ∷ 4294934993 ∷ 4294933604 ∷ 4294932234 ∷ 4294930886
    ∷ 4294929560 ∷ 4294928256 ∷ 4294926976 ∷ 4294925720 ∷ 4294924490 ∷ 4294923285 ∷ 4294922106
    ∷ 4294920955 ∷ 4294919832 ∷ 4294918737 ∷ 4294917672 ∷ 4294916636 ∷ 4294915631 ∷ 4294914657
    ∷ 4294913715 ∷ 4294912805 ∷ 4294911928 ∷ 4294911084 ∷ 4294910274 ∷ 4294909498 ∷ 4294908758
    ∷ 4294908052 ∷ 4294907382 ∷ 4294906749 ∷ 4294906151 ∷ 4294905591 ∷ 4294905068 ∷ 4294904582
    ∷ 4294904134 ∷ 4294903724 ∷ 4294903352 ∷ 4294903019 ∷ 4294902725 ∷ 4294902469 ∷ 4294902253
    ∷ 4294902076 ∷ 4294901938 ∷ 4294901839 ∷ 4294901780 ∷ 4294901760 ∷ 4294901780 ∷ 4294901839
    ∷ 4294901938 ∷ 4294902076 ∷ 4294902253 ∷ 4294902469 ∷ 4294902725 ∷ 4294903019 ∷ 4294903352
    ∷ 4294903724 ∷ 4294904134 ∷ 4294904582 ∷ 4294905068 ∷ 4294905591 ∷ 4294906151 ∷ 4294906749
    ∷ 4294907382 ∷ 4294908052 ∷ 4294908758 ∷ 4294909498 ∷ 4294910274 ∷ 4294911084 ∷ 4294911928
    ∷ 4294912805 ∷ 4294913715 ∷ 4294914657 ∷ 4294915631 ∷ 4294916636 ∷ 4294917672 ∷ 4294918737
    ∷ 4294919832 ∷ 4294920955 ∷ 4294922106 ∷ 4294923285 ∷ 4294924490 ∷ 4294925720 ∷ 4294926976
    ∷ 4294928256 ∷ 4294929560 ∷ 4294930886 ∷ 4294932234 ∷ 4294933604 ∷ 4294934993 ∷ 4294936403
    ∷ 4294937830 ∷ 4294939276 ∷ 4294940738 ∷ 4294942216 ∷ 4294943710 ∷ 4294945218 ∷ 4294946739
    ∷ 4294948272 ∷ 4294949817 ∷ 4294951372 ∷ 4294952937 ∷ 4294954511 ∷ 4294956092 ∷ 4294957680
    ∷ 4294959274 ∷ 4294960872 ∷ 4294962475 ∷ 4294964080 ∷ 4294965688 ∷ []
