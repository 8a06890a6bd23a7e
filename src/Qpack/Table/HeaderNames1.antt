-- ===== src/Qpack/Table/HeaderNames1.antt =====
-- bnl/http3/src/codec/qpack/decode_generated.cpp: cases of `find_header_only`.
use bnl.Prelude.{List, [], ◌∷◌}
use bnl.Qpack.Table.Entry.{HeaderName, header_name_case}

unfoldable pub header_names_1 : List HeaderName
header_names_1 =
    header_name_case 40 "cache-control"
    ∷ header_name_case 41 "cache-control"
    ∷ header_name_case 3 "content-disposition"
    ∷ header_name_case 42 "content-encoding"
    ∷ header_name_case 43 "content-encoding"
    ∷ header_name_case 4 "content-length"
    ∷ header_name_case 85 "content-security-policy"
    ∷ header_name_case 44 "content-type"
    ∷ header_name_case 45 "content-type"
    ∷ header_name_case 46 "content-type"
    ∷ header_name_case 47 "content-type"
    ∷ header_name_case 48 "content-type"
    ∷ header_name_case 49 "content-type"
    ∷ header_name_case 50 "content-type"
    ∷ header_name_case 51 "content-type"
    ∷ header_name_case 52 "content-type"
    ∷ header_name_case 53 "content-type"
    ∷ header_name_case 54 "content-type"
    ∷ header_name_case 5 "cookie"
    ∷ header_name_case 6 "date"
    ∷ header_name_case 86 "early-data"
    ∷ header_name_case 7 "etag"
    ∷ header_name_case 87 "expect-ct"
    ∷ header_name_case 88 "forwarded"
    ∷ header_name_case 8 "if-modified-since"
    ∷ header_name_case 9 "if-none-match"
    ∷ header_name_case 89 "if-range"
    ∷ header_name_case 10 "last-modified"
    ∷ header_name_case 11 "link"
    ∷ header_name_case 12 "location"
    ∷ header_name_case 90 "origin"
    ∷ header_name_case 91 "purpose"
    ∷ header_name_case 55 "range"
    ∷ header_name_case 13 "referer"
    ∷ header_name_case 92 "server"
    ∷ header_name_case 14 "set-cookie"
    ∷ header_name_case 56 "strict-transport-security"
    ∷ header_name_case 57 "strict-transport-security"
    ∷ header_name_case 58 "strict-transport-security"
    ∷ header_name_case 93 "timing-allow-origin"
    ∷ header_name_case 94 "upgrade-insecure-requests"
    ∷ header_name_case 95 "user-agent"
    ∷ header_name_case 59 "vary"
    ∷ header_name_case 60 "vary"
    ∷ header_name_case 61 "x-content-type-options"
    ∷ header_name_case 96 "x-forwarded-for"
    ∷ header_name_case 97 "x-frame-options"
    ∷ header_name_case 98 "x-frame-options"
    ∷ header_name_case 62 "x-xss-protection"
    ∷ []
