-- ===== src/Types/Attachments.antt =====
-- rain-engine-core/src/types.rs: multimodal payloads and attachments.
use rain_engine.Prelude.{ℕ, String, Option, List, length}

-- The field `data` of the source is `bytes`.
pub record MultimodalPayload : Type 0 where
  pub mime_type : String
  pub file_name : Option String
  pub bytes : List ℕ

pub record BlobDescriptor : Type 0 where
  pub uri : String
  pub size_bytes : ℕ

pub data AttachmentContent : Type 0 where
  inline : List ℕ → AttachmentContent
  blob : BlobDescriptor → AttachmentContent

pub record AttachmentRef : Type 0 where
  pub attachment_id : String
  pub mime_type : String
  pub file_name : Option String
  pub size_bytes : ℕ
  pub content : AttachmentContent

unfoldable pub attachment_inline : String → String → Option String → List ℕ → AttachmentRef
attachment_inline id mime name bytes = record {
  attachment_id = id;
  mime_type = mime;
  file_name = name;
  size_bytes = length bytes;
  content = inline bytes;
}

unfoldable pub attachment_blob : String → String → Option String → BlobDescriptor → AttachmentRef
attachment_blob id mime name descriptor = record {
  attachment_id = id;
  mime_type = mime;
  file_name = name;
  size_bytes = descriptor.size_bytes;
  content = blob descriptor;
}
