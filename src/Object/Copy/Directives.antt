-- ===== src/Object/Copy/Directives.antt =====
-- src/object.rs: the metadata of a copy, and the directive that R2 gets with it.
use r2kit.Object.Copy.Encoding.{PercentEncoding}
use r2kit.Prelude.{
  ◌≡◌, ◌⊎◌, inl, inr, refl, false, Option, none, some, Text, ok, is_some, ◌||◌, >>=-eq-ok,
  reject-eq-ok, ok-injective, Option-cases, subst, reject,
}
use r2kit.Error.{Error}
use r2kit.Object.Options.{
  Codecs, ObjectUploadOptions, validate, content_type_of, custom_metadata_values,
}
use r2kit.Object.Get.{checked_header}
use r2kit.Object.Copy.{
  MetadataDirective, copy, replace, CopyObjectBuilder, CopyObjectRequest, effective_directive,
  is_copy, resolve,
}
use r2kit.Object.Copy.Requests.{request_of, copy_request, validate_replacement}

-- A request that keeps the metadata of the source, and gives none.
pub record KeepsMetadata (r : CopyObjectRequest) : Type 0 where
  pub content_type : r.content_type ≡ none
  pub cache_control : r.cache_control ≡ none
  pub content_disposition : r.content_disposition ≡ none
  pub content_encoding : r.content_encoding ≡ none
  pub content_language : r.content_language ≡ none
  pub expires : r.expires ≡ none
  pub metadata : r.metadata ≡ none

-- A request that replaces the metadata by that of checked options.
pub record ReplacesMetadata (codecs : Codecs) (o : ObjectUploadOptions) (r : CopyObjectRequest)
    : Type 0 where
  pub directive : r.metadata_directive ≡ replace
  pub valid : validate codecs o ≡ ok tt
  pub no_condition : (o.if_match ≡ none) × (o.if_none_match ≡ none)
  pub content_type : r.content_type ≡ content_type_of o
  pub cache_control : r.cache_control ≡ o.cache_control
  pub metadata : r.metadata ≡ custom_metadata_values o

made :
    (codecs : Codecs) (encoding : PercentEncoding) (b : CopyObjectBuilder) (r : CopyObjectRequest)
    → copy_request codecs encoding b ≡ ok r
    → (source : _) × (destination : _) × (from : _) × (validate_replacement codecs
          b.metadata_directive b.metadata_options
        ≡ ok tt)
      × (request_of encoding b source destination from ≡ r)
unfolding copy_request
made codecs encoding b r h =
    let (source, _, h1) = >>=-eq-ok b.source_key _ h in
    let (destination, _, h2) = >>=-eq-ok b.destination_key _ h1 in
    let (from, _, h3) = >>=-eq-ok (resolve b.source_bucket b.bucket.name) _ h2 in
    let (_, _, h4) = >>=-eq-ok (checked_header "source_if_match" b.source_if_match) _ h3 in
    let (_, _, h5) =
      >>=-eq-ok (checked_header "source_if_none_match" b.source_if_none_match) _ h4 in
    let (_, replacement, h6) =
      >>=-eq-ok (validate_replacement codecs b.metadata_directive b.metadata_options) _ h5 in
    (source, destination, from, replacement, ok-injective h6)

replacing :
    (codecs : Codecs) (d : Option MetadataDirective) (o : ObjectUploadOptions)
    → validate_replacement codecs d (some o) ≡ ok tt
    → (effective_directive d (some o) ≡ replace)
      × (validate codecs o ≡ ok tt)
      × (o.if_match ≡ none)
      × (o.if_none_match ≡ none)
unfolding validate_replacement effective_directive
replacing codecs d o h =
    let (_, valid, h1) = >>=-eq-ok (validate codecs o) _ h in
    let (not_copy, h2) = reject-eq-ok (is_copy d) _ _ h1 in
    let (_, h3) = reject-eq-ok (is_some o.checksum) _ _ h2 in
    (
      directive d not_copy,
      valid,
      (unconditional o.if_match o.if_none_match _ h3).0,
      (unconditional o.if_match o.if_none_match _ h3).1,
    )
  where
    directive :
        (d : Option MetadataDirective)
        → is_copy d ≡ false
        → effective_directive d (some o) ≡ replace
    directive none e = refl
    directive (some copy) e = cc
    directive (some replace) e = refl

    unconditional :
        (x y : Option Text) (e : Error)
        → reject (is_some x || is_some y) e ≡ ok tt
        → (x ≡ none) × (y ≡ none)
    unconditional none none e h = (refl, refl)
    unconditional none (some y) e h = cc
    unconditional (some x) y e h = cc

-- A copy that gets past its checks either has no replacement metadata, and then its request gives none,
-- or has checked options without conditions, and then its request asks for a replacement by their
-- metadata: R2 is never given metadata together with the directive to keep the source's.
pub copy_request-metadata :
    (codecs : Codecs) (encoding : PercentEncoding) (b : CopyObjectBuilder) (r : CopyObjectRequest)
    → copy_request codecs encoding b ≡ ok r
    → ((b.metadata_options ≡ none) × KeepsMetadata r)
      ⊎ ((o : ObjectUploadOptions) × (b.metadata_options ≡ some o) × ReplacesMetadata codecs o r)
unfolding request_of
copy_request-metadata codecs encoding b r h =
    let (source, destination, from, checked, same) = made codecs encoding b r h in
    elim (Option-cases b.metadata_options) [
      | inl without ↦ inl (
        without,
        subst KeepsMetadata same (record {
          content_type = rw without;
          cache_control = rw without;
          content_disposition = rw without;
          content_encoding = rw without;
          content_language = rw without;
          expires = rw without;
          metadata = rw without;
        }),
      )
      | inr (o, given) ↦
          let (directive, valid, no_match, no_none_match) =
            replacing codecs b.metadata_directive o (rw given at checked) in
          inr (
            o,
            given,
            subst (ReplacesMetadata codecs o) same (record {
              directive = rw (given, directive);
              valid = valid;
              no_condition = (no_match, no_none_match);
              content_type = rw given;
              cache_control = rw given;
              metadata = rw given;
            }),
          )
    ]
