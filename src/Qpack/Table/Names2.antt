-- ===== src/Qpack/Table/Names2.antt =====
-- bnl/http3/src/codec/qpack/encode_generated.cpp: the cases from "strict-transport-security" to
-- "x-xss-protection".
use bnl.Prelude.{List, [], ◌∷◌}
use bnl.Qpack.Table.Entry.{value_case, Name, name_case}

unfoldable pub names_2 : List Name
names_2 =
    name_case 4179674550753269761 "strict-transport-security"
      (value_case 13034728143243030830 "max-age=31536000" 56
        ∷ value_case 11632417432576482556 "max-age=31536000; includesubdomains" 57
        ∷ value_case 16736049223785386895 "max-age=31536000; includesubdomains; preload" 58
        ∷ [])
      56
    ∷ name_case 5374862646944647126 "timing-allow-origin"
        (value_case 765293966243412708 "*" 93 ∷ []) 93
    ∷ name_case 18069291607417813553 "upgrade-insecure-requests"
        (value_case 13237225503670494420 "1" 94 ∷ []) 94
    ∷ name_case 16625730634708209664 "user-agent" [] 95
    ∷ name_case 8816542506507529547 "vary"
        (value_case 14455144075924042224 "accept-encoding" 59
          ∷ value_case 7034821444952201446 "origin" 60
          ∷ [])
        59
    ∷ name_case 6196956168349306122 "x-content-type-options"
        (value_case 4306527442339074562 "nosniff" 61 ∷ []) 61
    ∷ name_case 1042837635865018085 "x-forwarded-for" [] 96
    ∷ name_case 8598773544412918900 "x-frame-options"
        (value_case 6492545016868164575 "deny" 97
          ∷ value_case 13303836962186157521 "sameorigin" 98
          ∷ [])
        97
    ∷ name_case 15732293358711069708 "x-xss-protection"
        (value_case 7412498726110841680 "1; mode=block" 62 ∷ []) 62
    ∷ []
