-- ===== src/Qpack/Table/Names1.antt =====
-- bnl/http3/src/codec/qpack/encode_generated.cpp: the cases from "access-control-request-method" to
-- "set-cookie".
use bnl.Prelude.{List, [], ◌∷◌}
use bnl.Qpack.Table.Entry.{value_case, Name, name_case}

unfoldable pub names_1 : List Name
names_1 =
    name_case 14051338931492133901 "access-control-request-method"
      (value_case 2774841317834080824 "get" 81 ∷ value_case 3178169103122520677 "post" 82 ∷ []) 81
    ∷ name_case 5092756294692198100 "age" (value_case 7148434200721666028 "0" 2 ∷ []) 2
    ∷ name_case 12092656254601729054 "alt-svc" (value_case 9623284816163994036 "clear" 83 ∷ []) 83
    ∷ name_case 8846816503791876372 "authorization" [] 84
    ∷ name_case 6792126209451122079 "cache-control"
        (value_case 10032073942971583664 "max-age=0" 36
          ∷ value_case 3044507098168884424 "max-age=2592000" 37
          ∷ value_case 441477139842840241 "max-age=604800" 38
          ∷ value_case 8897988708233174624 "no-cache" 39
          ∷ value_case 3660001317594812985 "no-store" 40
          ∷ value_case 9509473917879564042 "public, max-age=31536000" 41
          ∷ [])
        36
    ∷ name_case 17156266451297603303 "content-disposition" [] 3
    ∷ name_case 11860813331948357247 "content-encoding"
        (value_case 12202383188974104177 "br" 42 ∷ value_case 12621183860903199653 "gzip" 43 ∷ [])
        42
    ∷ name_case 17031230962583399322 "content-length" (value_case 7148434200721666028 "0" 4 ∷ []) 4
    ∷ name_case 18043880115709070015 "content-security-policy"
        (value_case 165232284275397264 "script-src 'none'; object-src 'none'; base-uri 'none'" 85
          ∷ [])
        85
    ∷ name_case 3910122139284074053 "content-type"
        (value_case 6373961066247414572 "application/dns-message" 44
          ∷ value_case 9423039217905102597 "application/javascript" 45
          ∷ value_case 116355269824119741 "application/json" 46
          ∷ value_case 15711274223642436716 "application/x-www-form-urlencoded" 47
          ∷ value_case 12727226202374957143 "image/gif" 48
          ∷ value_case 12200045138720289141 "image/jpeg" 49
          ∷ value_case 12092489581388341001 "image/png" 50
          ∷ value_case 6791077934204364231 "text/css" 51
          ∷ value_case 8886412932112875563 "text/html; charset=utf-8" 52
          ∷ value_case 16588200704567877914 "text/plain" 53
          ∷ value_case 9119350762400467667 "text/plain;charset=utf-8" 54
          ∷ [])
        44
    ∷ name_case 905780767293800022 "cookie" [] 5
    ∷ name_case 9202271988582577219 "date" [] 6
    ∷ name_case 12326157660028381149 "early-data" (value_case 13237225503670494420 "1" 86 ∷ []) 86
    ∷ name_case 6439525432329186999 "etag" [] 7
    ∷ name_case 9568944059520352163 "expect-ct" [] 87
    ∷ name_case 5644212460638603090 "forwarded" [] 88
    ∷ name_case 12678664253902784264 "if-modified-since" [] 8
    ∷ name_case 8836338662272140136 "if-none-match" [] 9
    ∷ name_case 10086758965902305572 "if-range" [] 89
    ∷ name_case 5803729767262815818 "last-modified" [] 10
    ∷ name_case 17841021884467483934 "link" [] 11
    ∷ name_case 14592406158319853782 "location" [] 12
    ∷ name_case 7034821444952201446 "origin" [] 90
    ∷ name_case 4274379369960325767 "purpose" (value_case 15048569516378897441 "prefetch" 91 ∷ [])
        91
    ∷ name_case 12715602975004390753 "range" (value_case 6181996873389341388 "bytes=0-" 55 ∷ []) 55
    ∷ name_case 14154313121195327909 "referer" [] 13
    ∷ name_case 16290507850670895904 "server" [] 92
    ∷ name_case 666465872145128107 "set-cookie" [] 14
    ∷ []
