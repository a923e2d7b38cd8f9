-- ===== src/Catalog/Covers.antt =====
-- `resolveCoverUrl`: a stored cover becomes a URL, and a URL stays.
use arktion_sui_overflow.Prelude.{
  true, Option, arith, ◌≡◌, [], ◌∷◌, ◌++◌, none, refl, some, inr, inl, Bool-cases, ◌≢◌,
}
use arktion_sui_overflow.Catalog.Rows.{
  includes, resolve_cover_url, starts_with, scheme_mark, blob_path,
}
use arktion_sui_overflow.Text.{Text}

starts_with-append : (n s t : Text) → starts_with n s ≡ true → starts_with n (s ++ t) ≡ true
starts_with-append [] s t h = refl
starts_with-append (x ∷ n) [] t h = cc
starts_with-append (x ∷ n) (y ∷ s) t h = ground (arith, starts_with-append n s t)

includes-append : (n s t : Text) → includes n s ≡ true → includes n (s ++ t) ≡ true
unfolding includes
includes-append [] [] [] h = refl
includes-append [] [] (y ∷ t) h = refl
includes-append (x ∷ n) [] t h = cc
includes-append n (y ∷ s) t h =
    ground (arith, starts_with-append n (y ∷ s) t, includes-append n s t)

no_scheme : includes scheme_mark [] ≢ true
unfolding includes
no_scheme e = ground (arith, e)

resolve_cover_url-url :
    (aggregator t : Text)
    → includes scheme_mark t ≡ true
    → resolve_cover_url aggregator (some t) ≡ some t
unfolding resolve_cover_url
resolve_cover_url-url aggregator [] h = absurd (no_scheme h)
resolve_cover_url-url aggregator (c ∷ t) h = rw h refl

-- Resolving a cover that was resolved changes nothing, if the aggregator's own address is a URL.
pub resolve_cover_url_idempotent :
    (aggregator : Text) (raw : Option Text)
    → includes scheme_mark aggregator ≡ true
    → resolve_cover_url aggregator (resolve_cover_url aggregator raw)
      ≡ resolve_cover_url aggregator raw
unfolding resolve_cover_url
resolve_cover_url_idempotent aggregator none h = refl
resolve_cover_url_idempotent aggregator (some []) h = refl
resolve_cover_url_idempotent aggregator (some (c ∷ raw)) h =
    elim (Bool-cases (includes scheme_mark (c ∷ raw))) [
      | inl e ↦ rw (e, e) refl
      | inr e ↦ rw e (
          resolve_cover_url-url aggregator (aggregator ++ blob_path ++ c ∷ raw) (
            includes-append scheme_mark (aggregator ++ blob_path) (c ∷ raw)
              (includes-append scheme_mark aggregator blob_path h)))
    ]
