-- ===== src/Extractors/Delegation.antt =====
-- What the chain of delegated links returns.
use aniparse.Prelude.{
  ℕ, zero, suc, true, false, not, ◌||◌, List, [], ◌∷◌, Option, none, some, ◌≡◌, refl, ◌⊎◌, inl, inr,
  arith, ◌==◌, Bytes, Bool-cases, length,
}
use aniparse.Domains.Store.{Store}
use aniparse.Headers.{merge_missing}
use aniparse.Url.Parsed.{LexborUrl}
use aniparse.Extractors.{
  Outside, VideoExtraction, VideoExtractionLink, Response, response, failure, Route, Extractor,
  compose, route_link,
}
use aniparse.Extractors.Extraction.{
  is_stream, nested, follow_route, follow, resolve, extract_routed,
}

-- The same headers and adapter around the streams and links of another extraction.
abbrev within_headers : (o : Outside) → VideoExtraction o → VideoExtraction o → VideoExtraction o
within_headers o outer x = record x {
  headers = merge_missing x.headers outer.headers;
  adapter = compose o.composed (outer.adapter ∷ x.adapter ∷ []);
}

module _ (o : Outside) (lexbor : Bytes → Option LexborUrl) where
  abbrev Answer : Type 0
  Answer = Response o.Failure (VideoExtraction o)

  nested-stream :
      (outer : VideoExtraction o) (r : Answer)
      → is_stream o lexbor r ≡ true
      → (x : VideoExtraction o) × (nested o lexbor outer r ≡ response x)
        × ((length x.streams == 0) ≡ false)
  unfolding nested is_stream
  nested-stream outer (response x) h = (within_headers o outer x, refl, ground arith)
  nested-stream outer (failure e) h = absurd cc

  -- Following links gives the extraction that has them, or one with streams.
  abbrev Followed : VideoExtraction o → Answer → Type 0
  Followed outer r =
      (r ≡ response outer)
      ⊎ ((x : VideoExtraction o) × (r ≡ response x) × ((length x.streams == 0) ≡ false))

  follow_route-Followed :
      (extracted : Route o → o.World → Answer × o.World) (outer : VideoExtraction o)
      (later : o.World → Answer × o.World)
      → ((w : o.World) → Followed outer (later w).0)
      → (found : Option (Route o)) (world : o.World)
      → Followed outer (follow_route o lexbor extracted outer later found world).0
  unfolding follow_route
  follow_route-Followed extracted outer later h none world = h world
  follow_route-Followed extracted outer later h (some next) world =
      elim (Bool-cases (is_stream o lexbor (extracted next world).0)) [
        | inl streams ↦ rw streams (inr (nested-stream outer (extracted next world).0 streams))
        | inr dead ↦ rw dead (h (extracted next world).1)
      ]

  follow-Followed :
      (extracted : Route o → o.World → Answer × o.World) (s : Store (Extractor o))
      (outer : VideoExtraction o) (links : List VideoExtractionLink) (world : o.World)
      → Followed outer (follow o lexbor extracted s outer links world).0
  unfolding follow
  follow-Followed extracted s outer [] world = inl refl
  follow-Followed extracted s outer (link ∷ links) world =
      follow_route-Followed extracted outer (follow o lexbor extracted s outer links)
        (follow-Followed extracted s outer links) (route_link o lexbor link s) world

  -- What follows of the outcome of continuing an extraction, for the outcome of resolving it.
  resolve_lem :
      (continued : VideoExtraction o → o.World → Answer × o.World) (own : Answer) (world : o.World)
      → ((x : VideoExtraction o) (w : o.World) → Followed x (continued x w).0)
      → ((resolve o lexbor continued own world).0 ≡ own)
        ⊎ ((y : VideoExtraction o) × ((resolve o lexbor continued own world).0 ≡ response y)
            × ((length y.streams == 0) ≡ false)
            × ((x : VideoExtraction o) × (own ≡ response x) × (x.streams ≡ [])))
  unfolding resolve
  resolve_lem continued (failure e) world h = inl refl
  resolve_lem continued (response x) world h =
      elim (Bool-cases (not (length x.streams == 0) || length x.links == 0)) [
        | inl own ↦ inl (rw own refl)
        | inr open' ↦ elim (h x world) [
          | inl same ↦ inl (rw open' same)
          | inr (y, is_y, streams) ↦
              inr (y, rw open' is_y, streams, (x, refl, no_stream x.streams (ground arith)))
        ]
      ]
    where
      no_stream : (streams : List o.Stream) → (length streams == 0) ≡ true → streams ≡ []
      no_stream [] e = refl
      no_stream (a ∷ streams) e = ground arith

  -- Extraction at any depth either gives what the routed extractor itself answers, its error
  -- included, or, where that is an extraction without streams, one with streams.
  pub extract_routed_lem :
      (left : ℕ) (s : Store (Extractor o)) (route : Route o) (world : o.World)
      → ((extract_routed o lexbor left s route world).0
          ≡ (route.extractor.extract route.url world).0)
        ⊎ ((y : VideoExtraction o) × ((extract_routed o lexbor left s route world).0 ≡ response y)
            × ((length y.streams == 0) ≡ false)
            × ((x : VideoExtraction o) × ((route.extractor.extract route.url world).0 ≡ response x)
                × (x.streams ≡ [])))
  unfolding extract_routed
  extract_routed_lem zero s route world = resolve_lem (λ x w. (response x, w)) _ _ (λ x w. inl refl)
  extract_routed_lem (suc left) s route world =
      resolve_lem (λ x w. follow o lexbor (extract_routed o lexbor left s) s x x.links w) _ _
        (λ x w. follow-Followed (extract_routed o lexbor left s) s x x.links w)
