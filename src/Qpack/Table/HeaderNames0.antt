-- ===== src/Qpack/Table/HeaderNames0.antt =====
-- bnl/http3/src/codec/qpack/decode_generated.cpp: cases of `find_header_only`.
use bnl.Prelude.{List, [], ◌∷◌}
use bnl.Qpack.Table.Entry.{HeaderName, header_name_case}

unfoldable pub header_names_0 : List HeaderName
header_names_0 =
    header_name_case 0 ":authority"
    ∷ header_name_case 15 ":method"
    ∷ header_name_case 16 ":method"
    ∷ header_name_case 17 ":method"
    ∷ header_name_case 18 ":method"
    ∷ header_name_case 19 ":method"
    ∷ header_name_case 20 ":method"
    ∷ header_name_case 21 ":method"
    ∷ header_name_case 1 ":path"
    ∷ header_name_case 22 ":scheme"
    ∷ header_name_case 23 ":scheme"
    ∷ header_name_case 24 ":status"
    ∷ header_name_case 25 ":status"
    ∷ header_name_case 26 ":status"
    ∷ header_name_case 27 ":status"
    ∷ header_name_case 28 ":status"
    ∷ header_name_case 63 ":status"
    ∷ header_name_case 64 ":status"
    ∷ header_name_case 65 ":status"
    ∷ header_name_case 66 ":status"
    ∷ header_name_case 67 ":status"
    ∷ header_name_case 68 ":status"
    ∷ header_name_case 69 ":status"
    ∷ header_name_case 70 ":status"
    ∷ header_name_case 71 ":status"
    ∷ header_name_case 29 "accept"
    ∷ header_name_case 30 "accept"
    ∷ header_name_case 31 "accept-encoding"
    ∷ header_name_case 72 "accept-language"
    ∷ header_name_case 32 "accept-ranges"
    ∷ header_name_case 73 "access-control-allow-credentials"
    ∷ header_name_case 74 "access-control-allow-credentials"
    ∷ header_name_case 33 "access-control-allow-headers"
    ∷ header_name_case 34 "access-control-allow-headers"
    ∷ header_name_case 75 "access-control-allow-headers"
    ∷ header_name_case 76 "access-control-allow-methods"
    ∷ header_name_case 77 "access-control-allow-methods"
    ∷ header_name_case 78 "access-control-allow-methods"
    ∷ header_name_case 35 "access-control-allow-origin"
    ∷ header_name_case 79 "access-control-expose-headers"
    ∷ header_name_case 80 "access-control-request-headers"
    ∷ header_name_case 81 "access-control-request-method"
    ∷ header_name_case 82 "access-control-request-method"
    ∷ header_name_case 2 "age"
    ∷ header_name_case 83 "alt-svc"
    ∷ header_name_case 84 "authorization"
    ∷ header_name_case 36 "cache-control"
    ∷ header_name_case 37 "cache-control"
    ∷ header_name_case 38 "cache-control"
    ∷ header_name_case 39 "cache-control"
    ∷ []
