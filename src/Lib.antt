-- ===== src/Lib.antt =====
-- r2kit: a client library for Cloudflare R2, written in Rust on top of the AWS SDK for S3.
--
-- The program. A caller makes a client from a configuration and takes a bucket from it. On a bucket it
-- reads and writes objects, starts a presigned multipart upload (other processes upload the parts, the
-- caller completes the upload), or a managed upload of a file or a stream (the library plans, reads,
-- uploads, retries and completes). This library models the configuration and the client's settings, the
-- operations on buckets and objects, and the multipart core: the limits and validated values, the plan of
-- the parts, the completion manifest, the session and its saved forms, the reconciliation with what R2
-- holds, the completion, the managed uploads of a file and of a stream, the adaptive upload of a file,
-- and the retry policy.
--
-- The parts.
--   Prelude      numbers, lists, results, machine words and durations that the models share.
--   BTreeMap     std::collections::BTreeMap as a list of entries by rising key.
--   Error        src/error.rs: errors, and the classification of a failed request (from_sdk, from_status,
--                from_code, is_not_found); and the macro map_object_error of src/object.rs.
--   Sdk          the AWS SDK, a parameter: for each request a function from the state of R2 to a reply and
--                the next state. A remote computation ends with a result, or is unfinished when its fuel
--                runs out.
--   Types        src/types.rs: object keys, bucket names, thresholds, sizes and expiries.
--   Config       src/config.rs: jurisdictions, R2ConfigBuilder::build, from_env_with and endpoint_url.
--   Client       src/client.rs: what R2Client::new gives to the SDK, and the requests on buckets (Buckets).
--   Object       src/object.rs. Options: the upload options, their validation and the metadata sent.
--                Listing: ListObjectsBuilder; its send and its streams are in Listing.Pages. Range:
--                ByteRange. Get: downloads and inspections; their sends are in Get.Sends. Put: uploads with
--                one request (Put.Sends) and presign_upload_with_options (Put.Adaptive). Copy:
--                CopyObjectBuilder (Copy.Encoding, Requests, Sends). Delete: delete_objects and its batches.
--                Removal and Presign: delete, abort_multipart_upload, presign_get and presign_delete.
--   Multipart    src/multipart.rs. Plan: MultipartPlan and PartNumber. Manifest: UploadedPart, receipts and
--                CompletionManifest. Session: snapshots, persistence records and resuming. RemoteParts and
--                Reconcile: PresignedMultipart::reconcile, the work on one part and the page loop. Checks:
--                what create, complete, complete_verified and presign_part_inner decide before a request.
--                Upload: create, complete, complete_verified and abort.
--   Managed      src/managed.rs. Builder: the builders, validate, and the strategy of UploadFileBuilder.
--                Retry: retry_with_policy and its delays. Source: read_part and the fingerprint of the file.
--                Work: what run computes between requests. Upload: upload_file, run and after_start_error.
--                Pipeline: the stream of uploads under buffer_unordered as a step relation. Streaming:
--                upload_stream and run_stream. Buffers: the parts that run_stream holds in memory, as a
--                step relation. Adaptive: UploadFileBuilder::send.
--   Examples     data of the tests. The modules named Tests apply the theorems to it.
--
-- Numbers. u8, u16, u64 and usize are natural numbers; a cast or an operation that can wrap has its
-- modulus written out, and checked and saturating operations are written as such. The platform has
-- 64-bit addresses. Texts are lists of bytes. Durations are nanoseconds.
--
-- Fuel. The page loop of reconcile takes one unit for each request; more units than there are planned
-- parts are enough where each truncated page lists a part. The retry loop takes one unit for each call;
-- max_attempts + 1 units are enough. The batches of a deletion take one unit for each key. The streams of
-- a listing take one unit for each poll; one more than there are pages is enough. The reader's task of a
-- stream upload takes one unit for each part and one to end; run_stream gives it one more than there are
-- planned parts.
--
-- Parameters. The SDK; its requests outside the multipart ones, as arguments of the definitions that send
-- them; the signing of presigned requests; the file system (Managed.Source.Files) and the bodies of
-- single uploads (Managed.Adaptive.SinglePut); the reader of a stream (Managed.Streaming.Reader); the
-- reads of the environment; the parsers of media types and language tags and the Base64 codec
-- (Object.Options.Codecs); the conversions of dates; percent-encoding
-- (Object.Copy.Encoding.PercentEncoding); the digests of the crate feature `checksum`; the random numbers
-- of the retry delays; the order in which concurrent uploads end; and whether a cancellation wins against
-- a running upload.
--
-- Not modelled. Log events, Display and Debug, progress reports; getters, and the setters that only copy a
-- field, but for those that the code itself calls; download_file of src/object.rs, which writes a local
-- file; the instant at which a presigned request expires; the listing of open multipart uploads and
-- the MD5 digests of parts. In Managed.Upload and Managed.Streaming the attempts of concurrent uploads do not
-- interleave; Managed.Pipeline has the interleaving of whole parts. A HashMap of metadata that R2 sends is
-- a list of pairs.
pub mod Prelude
pub mod BTreeMap
pub mod Error
pub mod Sdk
pub mod Types
pub mod Config
pub mod Client
pub mod Object
pub mod Multipart
pub mod Managed
pub mod Examples
