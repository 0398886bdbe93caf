-- ===== src/Lib.antt =====
-- aniparse: the core of a C++ library that routes URLs to parsers of content sites.
--
-- A client registers parsers under identifiers and domains, hands the library a URL and gets the
-- parser that serves it; requests carry headers and cookies, and a search query is checked against
-- what a source supports before it is sent. A signed catalog replaces domains, mirrors, selectors
-- and expressions at run time. The parts, from the bottom up:
--
-- - Prelude: byte strings, list searches of <algorithm>, ordered maps (`std::map` as a list of
--   entries in the order of their keys), signed integers, decimal printing and reading.
-- - Domains models include/aniparse/detail. Domains/Labels is `DomainStore::split_domains`.
--   Domains/Scanner is `DomainScanner`, a trie of labels: a node's parent pointers are the list of
--   the nodes above it, so that `search_all_impl` walks the path back up. Domains/Store is
--   `DomainStore` with `Edit`: a snapshot's address is the number of the commit that made it, and
--   a draft that is refused is left with empty maps, since the code moves them into the call.
--   Domains/Store/Schedule has any number of writers whose calls interleave in any order; a commit
--   is one step, since the code takes the writer mutex for all of it.
-- - Url models include/aniparse/types/ParsedUrl.hpp, src/types/ParsedUrl.cpp (Url/Parsed) and
--   include/aniparse/utility/UrlEncode.hpp (Url/Encode). Offsets wrap at 32 bits and `size_t`
--   arithmetic at 64 bits, as in the code. lexbor is not part of the repository: `ParsedUrl::parse`
--   takes its parser as a parameter, and what the code reads of its result is the record
--   `LexborUrl`. Url/Parsed/Views says how the URL standard serializes components.
-- - ParserStore models src/ParserStore.cpp, over Domains and Url. A parser is the record of the
--   virtual functions that the store calls; an exception is a constructor of `Outcome`.
-- - Headers models src/types/Headers.cpp; Headers/Wire is the conversion to lines and from a block.
-- - Cookies models src/net/CookieStore.cpp. Time is a number of clock ticks, `ticks` of them to the
--   second, without a bound: the overflow of a clock's 64 bits is not modelled. `std::from_chars`
--   reads into 64 bits and leaves 0 where the number does not fit.
-- - Search models src/types/Search.cpp, without the table of identity keys. The three interval
--   types differ in what their integers count, and are one record.
-- - Pagination models include/aniparse/types/Pagination.hpp: item windows, and their translation
--   into pages. Offsets have no bounds; a limit is a 64-bit `size_t`, whose cast wraps.
-- - UrlPath models include/aniparse/utility/UrlPath.hpp. The loop of `numeric_after` takes fuel; two
--   more than the length of the text are enough for a marker that is not empty.
--
-- - Bitset models include/aniparse/detail/BitsetLite.hpp, whose operations
--   include/aniparse/detail/StrongBitset.hpp forwards: an array of words, for any number of bits
--   and any width of a word. The conversion to `unsigned long` is that to `unsigned long long`.
-- - Json models include/aniparse/json/Json.hpp. A parsed value is data; the type of a double and
--   its conversions are parameters.
-- - Catalog models src/catalog/Catalog.cpp, Catalog/Hosts and Catalog/Manager
--   src/catalog/CatalogManager.cpp, over ParserStore, Extractors and Sources. The signature
--   verifier and Boost's JSON parser are parameters, any functions. The holders of a `ServiceState`
--   are the sources in them; a resource cache is the keys of what it holds.
--   Catalog/Given says what a catalog gives under each key, apart from the decoder.
-- - Sources models include/aniparse/catalog/MirrorSource.hpp, src/html/SelectorSource.cpp and
--   src/utility/RegexSource.cpp. The compilers of selectors and expressions are parameters, whose
--   exceptions are `none`. Sources/Groups is the scanner of named groups: a turn moves on by a
--   character at least, so that the length of the pattern is fuel enough.
-- - Extractors models src/video/VideoExtractor.cpp and `ResourceAdapter::compose` of
--   src/media/ResourceAdapter.cpp. A coroutine that awaits requests is a function of the world that
--   answers them. The depth that is left is the fuel of the chain, as it is in the code. The
--   mirrors of an extractor, which its requests choose, are not modelled.
-- - ResourceCache models include/aniparse/cache/ResourceCache.hpp: the sections under its lock are
--   events in any order; the handles that keep an evicted resource alive are values.
-- - Republishable models include/aniparse/cache/Republishable.hpp and EnsurePublished.hpp: calls
--   whose test of the cell, load of the snapshot and fetch are steps of their own, in any order; the
--   responses of the fetches are part of the schedule.
-- - JsParser models src/html/JSParser.cpp. A position is what is left of the text; the scans and the
--   searches take fuel, one unit for each character, which JsParser/Turns and JsParser/Occurrences
--   show to be enough. JsParser/Pieces is a grammar of what the scans read. boost::json::parse is a
--   parameter.
-- - HtmlText models src/utility/HtmlText.cpp over a tree of nodes; the HTML parser is a parameter, and
--   its exceptions are `none`. An `int` offset is a number, for texts below 2^31 bytes.
-- - Requests models include/aniparse/types/Request.hpp: parameters, form bodies, and one record for the
--   three kinds of requests, which differ in their payload.
-- - ClientContext models src/ClientContext.cpp: configured requests and what becomes of the answer of
--   the client, which is a parameter. ClientContext/Contexts has the contexts over a store of the
--   configurations that they share; a context holds its services by value, since none is changed.
-- - Booru models src/engines/booru over an engine of the site, a parameter: pages of posts and pools,
--   searches, which check their query first, and the routing of URLs. An id is cast to the 32 bits
--   of an `int`.
-- - IsoTime models src/utility/Time.cpp. Days are counted by the proleptic Gregorian calendar, as
--   <chrono> defines it; the ticks of the clock per second are a parameter, and their count is an
--   integer without a bound, whose overflow theorems state.
--
-- Bytes are numbers below 256; a theorem that needs the bound says so. Every other loop is
-- structural recursion. Locks make each call of a store one step. Not modelled:
-- the network client and its coroutines, the DOM wrappers of lexbor, the content models, the
-- handles that transform a resource, and of the booru engine its credentials, suggestions and
-- serialization.
pub mod Prelude
pub mod Domains
pub mod Url
pub mod ParserStore
pub mod Headers
pub mod Cookies
pub mod Search
pub mod UrlPath
pub mod Bitset
pub mod Json
pub mod JsParser
pub mod Requests
pub mod ClientContext
pub mod Booru
pub mod HtmlText
pub mod Republishable
pub mod ResourceCache
pub mod IsoTime
pub mod Extractors
pub mod Sources
pub mod Catalog
pub mod Pagination
