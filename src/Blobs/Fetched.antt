-- ===== src/Blobs/Fetched.antt =====
-- rain-engine-core/src/blob.rs: what `InMemoryBlobStore` gives back of what was put into it.
use rain_engine.Prelude.{
  ◌≡◌, ap, ◌∙◌, sym, String, [], ◌∷◌, length, false, str_eq, eq_refl, if◌then◌else◌, arith,
  Bool-cases, inl, inr,
}
use rain_engine.Prelude.Assoc
use rain_engine.Prelude.Assoc.{get-insert}
use rain_engine.Prelude.Text.{concat}
use rain_engine.Types.Attachments.{
  MultimodalPayload, BlobDescriptor, AttachmentContent, attachment_blob,
}
use rain_engine.Types.Tools.{ok}
use rain_engine.Blobs.{InMemoryBlobStore, put_blob, get_blob}

blob-injective :
    (a b : BlobDescriptor) → AttachmentContent.blob a ≡ AttachmentContent.blob b → a ≡ b
blob-injective a b e = cc

-- What the store holds at a URI after a payload is put under another or the same one.
get_blob-insert :
    (s : InMemoryBlobStore) (uri : String) (payload : MultimodalPayload) (d : BlobDescriptor)
    → get_blob (record s { values = Assoc.insert uri payload s.values }) d
      ≡ (if str_eq uri d.uri then ok payload else get_blob s d)
unfolding get_blob
get_blob-insert s uri payload d = elim (Bool-cases (str_eq uri d.uri)) [
  | inl same ↦ rw (get-insert uri d.uri payload s.values, same)
  | inr differs ↦ rw (get-insert uri d.uri payload s.values, differs)
]

-- After a payload is put into the store, the descriptor in the attachment that this returns fetches
-- that payload and has its size, and a descriptor with another URI fetches what it fetched before.
pub get_blob-put_blob :
    (s : InMemoryBlobStore) (uuid id : String) (payload : MultimodalPayload)
    (d other : BlobDescriptor)
    → (put_blob s uuid id payload).1.content ≡ AttachmentContent.blob d
    → str_eq d.uri other.uri ≡ false
    → (get_blob (put_blob s uuid id payload).0 d ≡ ok payload)
      × (d.size_bytes ≡ length payload.bytes)
      × (get_blob (put_blob s uuid id payload).0 other ≡ get_blob s other)
unfolding put_blob get_blob attachment_blob
get_blob-put_blob s uuid id payload d other returned differs =
    let uri = concat ("memory://" ∷ uuid ∷ []) in
    let same = blob-injective _ d returned in
    let at : uri ≡ d.uri = ap (λ x. x.uri) same in
    (
      get_blob-insert s uri payload d ∙ ground (arith, at, eq_refl uri),
      sym (ap (λ x. x.size_bytes) same),
      get_blob-insert s uri payload other ∙ ground (arith, at, differs),
    )
