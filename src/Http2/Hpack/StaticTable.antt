-- ===== src/Http2/Hpack/StaticTable.antt =====
-- The static table of RFC 7541, Appendix A, as example/http2/src/codec.cpp has it.
use libspaznet.Base.{List, [], ◌∷◌, Bytes}
use libspaznet.Base.Text.{text}

unfoldable pub static_table : List (Bytes × Bytes)
static_table =
    (text "", text "")
    ∷ (text ":authority", text "")
    ∷ (text ":method", text "GET")
    ∷ (text ":method", text "POST")
    ∷ (text ":path", text "/")
    ∷ (text ":path", text "/index.html")
    ∷ (text ":scheme", text "http")
    ∷ (text ":scheme", text "https")
    ∷ (text ":status", text "200")
    ∷ (text ":status", text "204")
    ∷ (text ":status", text "206")
    ∷ (text ":status", text "304")
    ∷ (text ":status", text "400")
    ∷ (text ":status", text "404")
    ∷ (text ":status", text "500")
    ∷ (text "accept-charset", text "")
    ∷ (text "accept-encoding", text "gzip, deflate")
    ∷ (text "accept-language", text "")
    ∷ (text "accept-ranges", text "")
    ∷ (text "accept", text "")
    ∷ (text "access-control-allow-origin", text "")
    ∷ (text "age", text "")
    ∷ (text "allow", text "")
    ∷ (text "authorization", text "")
    ∷ (text "cache-control", text "")
    ∷ (text "content-disposition", text "")
    ∷ (text "content-encoding", text "")
    ∷ (text "content-language", text "")
    ∷ (text "content-length", text "")
    ∷ (text "content-location", text "")
    ∷ (text "content-range", text "")
    ∷ (text "content-type", text "")
    ∷ (text "cookie", text "")
    ∷ (text "date", text "")
    ∷ (text "etag", text "")
    ∷ (text "expect", text "")
    ∷ (text "expires", text "")
    ∷ (text "from", text "")
    ∷ (text "host", text "")
    ∷ (text "if-match", text "")
    ∷ (text "if-modified-since", text "")
    ∷ (text "if-none-match", text "")
    ∷ (text "if-range", text "")
    ∷ (text "if-unmodified-since", text "")
    ∷ (text "last-modified", text "")
    ∷ (text "link", text "")
    ∷ (text "location", text "")
    ∷ (text "max-forwards", text "")
    ∷ (text "proxy-authenticate", text "")
    ∷ (text "proxy-authorization", text "")
    ∷ (text "range", text "")
    ∷ (text "referer", text "")
    ∷ (text "refresh", text "")
    ∷ (text "retry-after", text "")
    ∷ (text "server", text "")
    ∷ (text "set-cookie", text "")
    ∷ (text "strict-transport-security", text "")
    ∷ (text "transfer-encoding", text "")
    ∷ (text "user-agent", text "")
    ∷ (text "vary", text "")
    ∷ (text "via", text "")
    ∷ (text "www-authenticate", text "")
    ∷ []
