-- ===== src/Qpack/Table/HeaderValues1.antt =====
-- bnl/http3/src/codec/qpack/decode_generated.cpp: cases of `find_header_value`.
use bnl.Prelude.{List, [], ◌∷◌}
use bnl.Qpack.Table.Entry.{HeaderValue, header_value_case}

unfoldable pub header_values_1 : List HeaderValue
header_values_1 =
    header_value_case 82 "access-control-request-method" "post"
    ∷ header_value_case 2 "age" "0"
    ∷ header_value_case 83 "alt-svc" "clear"
    ∷ header_value_case 36 "cache-control" "max-age=0"
    ∷ header_value_case 37 "cache-control" "max-age=2592000"
    ∷ header_value_case 38 "cache-control" "max-age=604800"
    ∷ header_value_case 39 "cache-control" "no-cache"
    ∷ header_value_case 40 "cache-control" "no-store"
    ∷ header_value_case 41 "cache-control" "public, max-age=31536000"
    ∷ header_value_case 42 "content-encoding" "br"
    ∷ header_value_case 43 "content-encoding" "gzip"
    ∷ header_value_case 4 "content-length" "0"
    ∷ header_value_case 85 "content-security-policy"
        "script-src 'none'; object-src 'none'; base-uri 'none'"
    ∷ header_value_case 44 "content-type" "application/dns-message"
    ∷ header_value_case 45 "content-type" "application/javascript"
    ∷ header_value_case 46 "content-type" "application/json"
    ∷ header_value_case 47 "content-type" "application/x-www-form-urlencoded"
    ∷ header_value_case 48 "content-type" "image/gif"
    ∷ header_value_case 49 "content-type" "image/jpeg"
    ∷ header_value_case 50 "content-type" "image/png"
    ∷ header_value_case 51 "content-type" "text/css"
    ∷ header_value_case 52 "content-type" "text/html; charset=utf-8"
    ∷ header_value_case 53 "content-type" "text/plain"
    ∷ header_value_case 54 "content-type" "text/plain;charset=utf-8"
    ∷ header_value_case 86 "early-data" "1"
    ∷ header_value_case 91 "purpose" "prefetch"
    ∷ header_value_case 55 "range" "bytes=0-"
    ∷ header_value_case 56 "strict-transport-security" "max-age=31536000"
    ∷ header_value_case 57 "strict-transport-security" "max-age=31536000; includesubdomains"
    ∷ header_value_case 58 "strict-transport-security"
        "max-age=31536000; includesubdomains; preload"
    ∷ header_value_case 93 "timing-allow-origin" "*"
    ∷ header_value_case 94 "upgrade-insecure-requests" "1"
    ∷ header_value_case 59 "vary" "accept-encoding"
    ∷ header_value_case 60 "vary" "origin"
    ∷ header_value_case 61 "x-content-type-options" "nosniff"
    ∷ header_value_case 97 "x-frame-options" "deny"
    ∷ header_value_case 98 "x-frame-options" "sameorigin"
    ∷ header_value_case 62 "x-xss-protection" "1; mode=block"
    ∷ []
