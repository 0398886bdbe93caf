-- ===== src/Catalog/Manager/Rollback.antt =====
-- What runs of `apply` do to the manager and to its revision.
use aniparse.Prelude.{
  ℕ, ◌-◌, ◌^◌, ◌<◌, Bool, false, List, [], ◌∷◌, Option, ◌≡◌, refl, ap, ◌∙◌, ◌⊎◌, inl, inr, arith,
  Bytes, codes, All,
}
use aniparse.Prelude.Int.{ℤ, negsuc}
use aniparse.Json.{Json, integer, to_uint64}
use aniparse.Extractors.{Outside}
use aniparse.Catalog.{
  CatalogData, CatalogError, Expected, value, unexpected, decode_catalog, read_data,
}
use aniparse.Catalog.Decoding.{IsCatalog, decode_catalog_iff, IsCatalog-revision}
use aniparse.Catalog.Manager.{Manager, adopt, conclude, apply, apply_all, accepted, Delivery}

-- Each number is above the one before it, the first above a bound.
abbrev pub Ascending : ℕ → List ℕ → Type 0
Ascending low [] = Unit
Ascending low (r ∷ rs) = (low < r) × (r < 2 ^ 64) × Ascending r rs

-- The last of some numbers, or one that stands before them.
abbrev pub last_or : ℕ → List ℕ → ℕ
last_or low [] = low
last_or low (r ∷ rs) = last_or r rs

Expected-cases :
    {E A : Type 0} (x : Expected E A) → ((e : E) × (x ≡ unexpected e)) ⊎ ((a : A) × (x ≡ value a))
Expected-cases (value a) = inr (a, refl)
Expected-cases (unexpected e) = inl (e, refl)

module _ (o : Outside) {Real : Type 0} (truncated : Real → ℤ) (verify : Bytes → Bytes → Bool)
    (parse : Bytes → Option (Json Real)) where
  -- A call of `apply` either reports an error and changes nothing, or adopts the data of a catalog
  -- that is verified and newer than the manager's revision, and reports their revision.
  pub apply_cases :
      (payload signature : Bytes) (m : Manager o)
      → ((e : CatalogError) × (apply o truncated verify parse payload signature m
            ≡ (unexpected e, m)))
        ⊎ ((d : CatalogData) × IsCatalog truncated verify parse payload signature m.revision d
            × (apply o truncated verify parse payload signature m
                ≡ (value d.revision, adopt o d m)))
  unfolding apply conclude
  apply_cases payload signature m =
      elim (Expected-cases (decode_catalog truncated verify parse payload signature m.revision)) [
        | inl (e, failed) ↦ inl (e, rw failed refl)
        | inr (d, decoded) ↦ inr (
          d,
          (decode_catalog_iff truncated verify parse payload signature m.revision d).0.0 decoded,
          rw decoded refl,
        )
      ]

  -- Over any run of `apply`, whatever the payloads, the revisions that were applied ascend from
  -- the manager's, each below 2^64, and the manager ends at the last of them.
  pub apply_all-Ascending :
      (deliveries : List Delivery) (m : Manager o)
      → Ascending m.revision (apply_all o truncated verify parse deliveries m).0
        × ((apply_all o truncated verify parse deliveries m).1.revision
            ≡ last_or m.revision (apply_all o truncated verify parse deliveries m).0)
  unfolding apply_all accepted adopt
  apply_all-Ascending [] m = (tt, refl)
  apply_all-Ascending ((payload, signature) ∷ deliveries) m =
      elim (apply_cases payload signature m) [
        | inl (e, failed) ↦ rw failed (apply_all-Ascending deliveries m)
        | inr (d, catalog, applied) ↦
            let (ascending, ends) = apply_all-Ascending deliveries (adopt o d m) in
            let (newer, below) =
              IsCatalog-revision truncated verify parse payload signature m.revision d catalog in
            rw applied ((newer, below, ascending), ends)
      ]

  saturated_refuses :
      (deliveries : List Delivery) (m : Manager o)
      → m.revision ≡ 2 ^ 64 - 1
      → apply_all o truncated verify parse deliveries m ≡ ([], m)
  unfolding apply_all accepted
  saturated_refuses [] m full = refl
  saturated_refuses ((payload, signature) ∷ deliveries) m full =
      elim (apply_cases payload signature m) [
        | inl (e, failed) ↦ rw failed (saturated_refuses deliveries m full)
        | inr (d, catalog, applied) ↦
            let bounds =
              IsCatalog-revision truncated verify parse payload signature m.revision d catalog in
            absurd (omega (arith, bounds, full))
      ]

  -- After a catalog whose JSON gives the revision -1 was applied, no run of `apply` changes
  -- anything, whatever the payloads.
  pub negative_revision_locks :
      (payload signature : Bytes) (m : Manager o) (d : CatalogData)
      (c : IsCatalog truncated verify parse payload signature m.revision d)
      → integer truncated c.root (codes "revision") ≡ negsuc 0
      → (deliveries : List Delivery)
      → apply_all o truncated verify parse deliveries
          (apply o truncated verify parse payload signature m).1
        ≡ ([], (apply o truncated verify parse payload signature m).1)
  unfolding apply conclude adopt to_uint64 read_data
  negative_revision_locks payload signature m d c negative deliveries =
      let decoded =
        (decode_catalog_iff truncated verify parse payload signature m.revision d).0.1 c in
      let full : d.revision ≡ 2 ^ 64 - 1 = ap (λ e. e.revision) c.reads ∙ ap to_uint64 negative in
      rw decoded (saturated_refuses deliveries (adopt o d m) full)

  -- A run of deliveries that all fail the verifier changes nothing.
  pub unverified_refused :
      (deliveries : List Delivery) (m : Manager o)
      → All (λ delivery. verify delivery.0 delivery.1 ≡ false) deliveries
      → apply_all o truncated verify parse deliveries m ≡ ([], m)
  unfolding apply_all accepted
  unverified_refused [] m forged = refl
  unverified_refused ((payload, signature) ∷ deliveries) m forged =
      elim (apply_cases payload signature m) [
        | inl (e, failed) ↦ rw failed (unverified_refused deliveries m forged.1)
        | inr (d, catalog, applied) ↦ absurd (ground (arith, catalog.verified, forged.0))
      ]
