-- ===== src/Qpack/Table/Names0.antt =====
-- bnl/http3/src/codec/qpack/encode_generated.cpp: the cases from ":authority" to
-- "access-control-request-headers".
use bnl.Prelude.{List, [], ◌∷◌}
use bnl.Qpack.Table.Entry.{value_case, Name, name_case}

unfoldable pub names_0 : List Name
names_0 =
    name_case 16895098521482341206 ":authority" [] 0
    ∷ name_case 11800921616074793521 ":method"
        (value_case 1969084168692057419 "CONNECT" 15
          ∷ value_case 3416820684017772195 "DELETE" 16
          ∷ value_case 3137017853320178759 "GET" 17
          ∷ value_case 5077457392360958184 "HEAD" 18
          ∷ value_case 13449464674369688059 "OPTIONS" 19
          ∷ value_case 1393561109570896241 "POST" 20
          ∷ value_case 8278045464579020327 "PUT" 21
          ∷ [])
        15
    ∷ name_case 1432527143127418564 ":path" (value_case 16761507700594825962 "/" 1 ∷ []) 1
    ∷ name_case 16734001141632695329 ":scheme"
        (value_case 13730016396111666430 "http" 22
          ∷ value_case 10742537861312705840 "https" 23
          ∷ [])
        22
    ∷ name_case 11145724770861396798 ":status"
        (value_case 2891813017576360282 "103" 24
          ∷ value_case 2685111111418367100 "200" 25
          ∷ value_case 2860949800888200221 "304" 26
          ∷ value_case 5957985645556640011 "404" 27
          ∷ value_case 12373623763172808772 "503" 28
          ∷ value_case 6146904730557115430 "100" 63
          ∷ value_case 11759795502426644276 "204" 64
          ∷ value_case 17033585193496081404 "206" 65
          ∷ value_case 1337354901647857481 "302" 66
          ∷ value_case 11111781720710347155 "400" 67
          ∷ value_case 14993518005534636743 "403" 68
          ∷ value_case 1128097706726417269 "421" 69
          ∷ value_case 17924379407345689140 "425" 70
          ∷ value_case 12667669577372699657 "500" 71
          ∷ [])
        24
    ∷ name_case 14776963886974432617 "accept"
        (value_case 285960807216420690 "*/*" 29
          ∷ value_case 6373961066247414572 "application/dns-message" 30
          ∷ [])
        29
    ∷ name_case 14455144075924042224 "accept-encoding"
        (value_case 9032900040511447184 "gzip, deflate, br" 31 ∷ []) 31
    ∷ name_case 12586352021634702904 "accept-language" [] 72
    ∷ name_case 14590555536192441974 "accept-ranges"
        (value_case 3279652670845457604 "bytes" 32 ∷ []) 32
    ∷ name_case 5881923794129529227 "access-control-allow-credentials"
        (value_case 13702020392090633634 "FALSE" 73
          ∷ value_case 13992295306875567947 "TRUE" 74
          ∷ [])
        73
    ∷ name_case 3800686319607884068 "access-control-allow-headers"
        (value_case 6792126209451122079 "cache-control" 33
          ∷ value_case 3910122139284074053 "content-type" 34
          ∷ value_case 765293966243412708 "*" 75
          ∷ [])
        33
    ∷ name_case 10756748986426057606 "access-control-allow-methods"
        (value_case 2774841317834080824 "get" 76
          ∷ value_case 13368036589511723433 "get, post, options" 77
          ∷ value_case 16398749137410613924 "options" 78
          ∷ [])
        76
    ∷ name_case 9436417403599124064 "access-control-allow-origin"
        (value_case 765293966243412708 "*" 35 ∷ []) 35
    ∷ name_case 6796384088407939286 "access-control-expose-headers"
        (value_case 17031230962583399322 "content-length" 79 ∷ []) 79
    ∷ name_case 4242818872217734295 "access-control-request-headers"
        (value_case 3910122139284074053 "content-type" 80 ∷ []) 80
    ∷ []
