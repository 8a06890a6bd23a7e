-- ===== src/Qpack/Table/HeaderValues0.antt =====
-- bnl/http3/src/codec/qpack/decode_generated.cpp: cases of `find_header_value`.
use bnl.Prelude.{List, [], ◌∷◌}
use bnl.Qpack.Table.Entry.{HeaderValue, header_value_case}

unfoldable pub header_values_0 : List HeaderValue
header_values_0 =
    header_value_case 15 ":method" "CONNECT"
    ∷ header_value_case 16 ":method" "DELETE"
    ∷ header_value_case 17 ":method" "GET"
    ∷ header_value_case 18 ":method" "HEAD"
    ∷ header_value_case 19 ":method" "OPTIONS"
    ∷ header_value_case 20 ":method" "POST"
    ∷ header_value_case 21 ":method" "PUT"
    ∷ header_value_case 1 ":path" "/"
    ∷ header_value_case 22 ":scheme" "http"
    ∷ header_value_case 23 ":scheme" "https"
    ∷ header_value_case 24 ":status" "103"
    ∷ header_value_case 25 ":status" "200"
    ∷ header_value_case 26 ":status" "304"
    ∷ header_value_case 27 ":status" "404"
    ∷ header_value_case 28 ":status" "503"
    ∷ header_value_case 63 ":status" "100"
    ∷ header_value_case 64 ":status" "204"
    ∷ header_value_case 65 ":status" "206"
    ∷ header_value_case 66 ":status" "302"
    ∷ header_value_case 67 ":status" "400"
    ∷ header_value_case 68 ":status" "403"
    ∷ header_value_case 69 ":status" "421"
    ∷ header_value_case 70 ":status" "425"
    ∷ header_value_case 71 ":status" "500"
    ∷ header_value_case 29 "accept" "*/*"
    ∷ header_value_case 30 "accept" "application/dns-message"
    ∷ header_value_case 31 "accept-encoding" "gzip, deflate, br"
    ∷ header_value_case 32 "accept-ranges" "bytes"
    ∷ header_value_case 73 "access-control-allow-credentials" "FALSE"
    ∷ header_value_case 74 "access-control-allow-credentials" "TRUE"
    ∷ header_value_case 33 "access-control-allow-headers" "cache-control"
    ∷ header_value_case 34 "access-control-allow-headers" "content-type"
    ∷ header_value_case 75 "access-control-allow-headers" "*"
    ∷ header_value_case 76 "access-control-allow-methods" "get"
    ∷ header_value_case 77 "access-control-allow-methods" "get, post, options"
    ∷ header_value_case 78 "access-control-allow-methods" "options"
    ∷ header_value_case 35 "access-control-allow-origin" "*"
    ∷ header_value_case 79 "access-control-expose-headers" "content-length"
    ∷ header_value_case 80 "access-control-request-headers" "content-type"
    ∷ header_value_case 81 "access-control-request-method" "get"
    ∷ []
