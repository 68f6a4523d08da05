-- ===== src/Object/Copy/Requests.antt =====
-- src/object.rs: what a copy checks, and the request it makes.
use r2kit.Object.Copy.Encoding.{PercentEncoding}
use r2kit.Prelude.{◌||◌, Option, none, some, Result, ok, ◌>>=◌, ◌>>◌, is_some, reject}
use r2kit.Error.{Error, invalid_input}
use r2kit.Types.{ObjectKey, BucketName}
use r2kit.Object.Options.{
  Codecs, ObjectUploadOptions, validate, content_type_of, custom_metadata_values,
  validate_metadata_header,
}
use r2kit.Object.Get.{checked_header}
use r2kit.Object.Copy.{
  MetadataDirective, CopyObjectBuilder, CopyObjectRequest, copy_source, effective_directive,
  is_copy, resolve, sent,
}

-- The request, with the metadata of the options where there are some.
unfoldable pub request_of :
    PercentEncoding → CopyObjectBuilder → ObjectKey → ObjectKey → BucketName → CopyObjectRequest
unfolding effective_directive custom_metadata_values
request_of encoding b source destination from = record {
  bucket = b.bucket.name.text;
  key = destination.text;
  copy_source = copy_source encoding from source;
  copy_source_if_match = b.source_if_match;
  copy_source_if_none_match = b.source_if_none_match;
  copy_source_if_modified_since = b.source_if_modified_since;
  copy_source_if_unmodified_since = b.source_if_unmodified_since;
  metadata_directive = effective_directive b.metadata_directive b.metadata_options;
  content_type = sent (λ o. content_type_of o) b.metadata_options;
  cache_control = sent (λ o. o.cache_control) b.metadata_options;
  content_disposition = sent (λ o. o.content_disposition) b.metadata_options;
  content_encoding = sent (λ o. o.content_encoding) b.metadata_options;
  content_language = sent (λ o. o.content_language) b.metadata_options;
  expires = sent (λ o. o.expires) b.metadata_options;
  metadata = sent (λ o. custom_metadata_values o) b.metadata_options;
}

module _ (codecs : Codecs) where
  -- The checks of replacement metadata.
  unfoldable pub validate_replacement :
      Option MetadataDirective → Option ObjectUploadOptions → Result (Unit {0}) Error
  unfolding validate
  validate_replacement directive none = ok tt
  validate_replacement directive (some options) = do
    validate codecs options
    reject (is_copy directive) (
        invalid_input "metadata_directive"
          "cannot specify upload_options when metadata_directive is Copy")
    reject (is_some options.checksum)
        (invalid_input "checksum" "checksum verification is not supported on CopyObject operations")
    reject (is_some options.if_match || is_some options.if_none_match) (
        invalid_input "if_match"
          "conditional match headers in upload_options are not supported for CopyObject; use source_if_match or source_if_none_match")

  -- What `CopyObjectBuilder::send` does before its request.
  unfoldable pub copy_request : PercentEncoding → CopyObjectBuilder → Result CopyObjectRequest Error
  unfolding validate_metadata_header validate_replacement
  copy_request encoding b = do
    source_key ← b.source_key
    destination_key ← b.destination_key
    source_bucket ← resolve b.source_bucket b.bucket.name
    checked_header "source_if_match" b.source_if_match
    checked_header "source_if_none_match" b.source_if_none_match
    validate_replacement b.metadata_directive b.metadata_options
    ok (request_of encoding b source_key destination_key source_bucket)
