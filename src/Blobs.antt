-- ===== src/Blobs.antt =====
-- rain-engine-core/src/blob.rs: `InMemoryBlobStore`. The lock is held for one operation, so an
-- operation is a function from the values to the values. The fresh identifier is an argument.
pub mod Fetched
use rain_engine.Prelude.{String, Option, none, some, [], ◌∷◌, length}
use rain_engine.Prelude.Assoc
use rain_engine.Prelude.Assoc.{Assoc}
use rain_engine.Prelude.Text.{concat}
use rain_engine.Types.Attachments.{
  MultimodalPayload, BlobDescriptor, AttachmentRef, attachment_blob,
}
use rain_engine.Types.Tools.{Result, ok, err}

pub record BlobStoreError : Type 0 where
  pub message : String

pub record InMemoryBlobStore : Type 0 where
  pub values : Assoc MultimodalPayload

unfoldable pub empty_blobs : InMemoryBlobStore
empty_blobs = record { values = [] }

-- `InMemoryBlobStore::put`: the attachment refers to the payload by a fresh URI.
unfoldable pub put_blob :
    InMemoryBlobStore → String → String → MultimodalPayload → InMemoryBlobStore × AttachmentRef
unfolding attachment_blob
put_blob s uuid attachment_id payload =
    let uri = concat ("memory://" ∷ uuid ∷ []) in
    (
      record s { values = Assoc.insert uri payload s.values },
      attachment_blob attachment_id payload.mime_type payload.file_name
          (record { uri = uri; size_bytes = length payload.bytes }),
    )

abbrev or_not_found : Option MultimodalPayload → Result MultimodalPayload BlobStoreError
or_not_found none = err (record { message = "blob not found" })
or_not_found (some payload) = ok payload

-- `InMemoryBlobStore::get`
unfoldable pub get_blob :
    InMemoryBlobStore → BlobDescriptor → Result MultimodalPayload BlobStoreError
get_blob s descriptor = or_not_found (Assoc.get descriptor.uri s.values)
