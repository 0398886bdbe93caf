-- ===== src/Url.antt =====
-- URLs: types/ParsedUrl, and the percent codecs of utility/UrlEncode.hpp.
pub mod Parsed
pub mod Encode
mod Tests
