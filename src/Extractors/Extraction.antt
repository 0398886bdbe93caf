-- ===== src/Extractors/Extraction.antt =====
-- Extraction with its chain of delegated links (src/video/VideoExtractor.cpp). `left` is the maximal
-- depth less the depth of a call.
use aniparse.Prelude.{
  ℕ, zero, suc, Bool, false, not, ◌||◌, List, [], ◌∷◌, ◌++◌, Option, none, some, ◌==◌, Bytes, codes,
  if◌then◌else◌, length,
}
use aniparse.Domains.Store.{Store}
use aniparse.Headers.{merge_missing}
use aniparse.Url.Parsed
use aniparse.Url.Parsed.{LexborUrl, ParsedUrl}
use aniparse.Extractors.{
  Outside, Response, response, failure, VideoExtraction, VideoExtractionLink, Extractor, Route,
  compose, route_link, route_parsed,
}

module _ (o : Outside) (lexbor : Bytes → Option LexborUrl) where
  unfoldable pub is_stream : Response o.Failure (VideoExtraction o) → Bool
  is_stream (response x) = not (length x.streams == 0)
  is_stream (failure e) = false

  -- What is returned of a delegated extraction: the transport defaults and the adapter of the
  -- extractor that delegated are kept around it.
  unfoldable pub nested :
      VideoExtraction o
      → Response o.Failure (VideoExtraction o)
      → Response o.Failure (VideoExtraction o)
  nested outer (response followed) = response (record followed {
    headers = merge_missing followed.headers outer.headers;
    adapter = compose o.composed (outer.adapter ∷ followed.adapter ∷ []);
  })
  nested outer (failure e) = failure e

  -- One link of the loop, by the extraction of a routed one and the rest of the loop.
  unfoldable pub follow_route :
      (Route o → o.World → Response o.Failure (VideoExtraction o) × o.World)
      → VideoExtraction o
      → (o.World → Response o.Failure (VideoExtraction o) × o.World)
      → Option (Route o)
      → o.World
      → Response o.Failure (VideoExtraction o) × o.World
  follow_route extracted outer later none world = later world
  follow_route extracted outer later (some next) world =
      let (followed, world') = extracted next world in
      let other = later world' in
      if is_stream followed then (nested outer followed, world') else other

  -- The loop over the links of an extraction.
  unfoldable pub follow :
      (Route o → o.World → Response o.Failure (VideoExtraction o) × o.World)
      → Store (Extractor o)
      → VideoExtraction o
      → List VideoExtractionLink
      → o.World
      → Response o.Failure (VideoExtraction o) × o.World
  follow extracted s outer [] world = (response outer, world)
  follow extracted s outer (link ∷ links) world =
      follow_route extracted outer (follow extracted s outer links) (route_link o lexbor link s)
        world

  -- An extraction without streams and with links is continued; every other is the result.
  unfoldable pub resolve :
      (VideoExtraction o → o.World → Response o.Failure (VideoExtraction o) × o.World)
      → Response o.Failure (VideoExtraction o)
      → o.World
      → Response o.Failure (VideoExtraction o) × o.World
  resolve continued (failure e) world = (failure e, world)
  resolve continued (response x) world =
      if not (length x.streams == 0) || length x.links == 0
      then (response x, world)
      else continued x world

  unfoldable pub extract_routed :
      ℕ → Store (Extractor o) → Route o → o.World → Response o.Failure (VideoExtraction o) × o.World
  extract_routed zero s route world =
      let (own, world') = route.extractor.extract route.url world in
      resolve (λ x w. (response x, w)) own world'
  extract_routed (suc left) s route world =
      let (own, world') = route.extractor.extract route.url world in
      resolve (λ x w. follow (extract_routed left s) s x x.links w) own world'

  unfoldable pub extract_from :
      ℕ
      → Store (Extractor o)
      → Bytes
      → Option (Route o)
      → o.World
      → Response o.Failure (VideoExtraction o) × o.World
  extract_from max_depth s href none world =
      (failure (o.not_implemented (codes "No video extractor handles " ++ href)), world)
  extract_from max_depth s href (some route) world = extract_routed max_depth s route world

  unfoldable pub extract_parsed :
      ℕ
      → Store (Extractor o)
      → ParsedUrl
      → o.World
      → Response o.Failure (VideoExtraction o) × o.World
  extract_parsed max_depth s url world =
      extract_from max_depth s (url.href_) (route_parsed o url s) world

  unfoldable pub extract_text :
      ℕ
      → Store (Extractor o)
      → Bytes
      → Option ParsedUrl
      → o.World
      → Response o.Failure (VideoExtraction o) × o.World
  extract_text max_depth s url none world =
      (failure (o.invalid_arguments (codes "Malformed video URL: " ++ url)), world)
  extract_text max_depth s url (some parsed) world = extract_parsed max_depth s parsed world

  unfoldable pub extract :
      ℕ → Store (Extractor o) → Bytes → o.World → Response o.Failure (VideoExtraction o) × o.World
  extract max_depth s url world = extract_text max_depth s url (Parsed.parse lexbor url) world
