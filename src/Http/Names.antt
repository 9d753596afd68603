-- ===== src/Http/Names.antt =====
-- The header names of util/http/KnownHttpHeaders.hpp that the program looks up, and the values and
-- content types that BaseHttpTransaction compares with.
use http_filtering_engine.Base.{Bytes, codes}

abbrev pub accept_encoding : Bytes
accept_encoding = codes "Accept-Encoding"

abbrev pub connection : Bytes
connection = codes "Connection"

abbrev pub content_encoding : Bytes
content_encoding = codes "Content-Encoding"

abbrev pub content_length : Bytes
content_length = codes "Content-Length"

abbrev pub content_type : Bytes
content_type = codes "Content-Type"

abbrev pub host : Bytes
host = codes "Host"

abbrev pub public_key_pins : Bytes
public_key_pins = codes "Public-Key-Pins"

abbrev pub public_key_pins_report_only : Bytes
public_key_pins_report_only = codes "Public-Key-Pins-Report-Only"

abbrev pub transfer_encoding : Bytes
transfer_encoding = codes "Transfer-Encoding"

abbrev pub get_dictionary : Bytes
get_dictionary = codes "Get-Dictionary"

abbrev pub x_sdhc : Bytes
x_sdhc = codes "X-SDHC"

abbrev pub avail_dictionary : Bytes
avail_dictionary = codes "Avail-Dictionary"

abbrev pub alternate_protocol : Bytes
alternate_protocol = codes "Alternate-Protocol"

abbrev pub alt_svc : Bytes
alt_svc = codes "Alt-Svc"

abbrev pub content_type_text : Bytes
content_type_text = codes "text/"

abbrev pub content_type_html : Bytes
content_type_html = codes "html"

abbrev pub content_type_json : Bytes
content_type_json = codes "json"

abbrev pub content_type_image : Bytes
content_type_image = codes "image/"

abbrev pub content_type_css : Bytes
content_type_css = codes "css"

abbrev pub content_type_javascript : Bytes
content_type_javascript = codes "javascript"

abbrev pub chunked : Bytes
chunked = codes "chunked"

abbrev pub gzip : Bytes
gzip = codes "gzip"

abbrev pub deflate : Bytes
deflate = codes "deflate"
