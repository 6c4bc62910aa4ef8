-- ===== src/Examples/BlobRuns.antt =====
-- Runs of the blob store.
use rain_engine.Prelude.{◌≡◌, refl, none, [], ◌∷◌, length}
use rain_engine.Types.Attachments.{MultimodalPayload, BlobDescriptor, attachment_blob}
use rain_engine.Types.Tools.{ok}
use rain_engine.Blobs.{empty_blobs, put_blob, get_blob}
use rain_engine.Blobs.Fetched.{get_blob-put_blob}

abbrev note : MultimodalPayload
note = record { mime_type = "text/plain"; file_name = none; bytes = 104 ∷ 105 ∷ [] }

abbrev kept : BlobDescriptor
kept = record { uri = "memory://u2"; size_bytes = 2 }

abbrev older : BlobDescriptor
older = record { uri = "memory://u1"; size_bytes = 2 }

get_blob-put_blob_example :
    (get_blob (put_blob (put_blob empty_blobs "u1" "a" note).0 "u2" "b" note).0 kept ≡ ok note)
    × (2 ≡ length note.bytes)
    × (get_blob (put_blob (put_blob empty_blobs "u1" "a" note).0 "u2" "b" note).0 older
        ≡ get_blob (put_blob empty_blobs "u1" "a" note).0 older)
unfolding put_blob attachment_blob
get_blob-put_blob_example =
    get_blob-put_blob (put_blob empty_blobs "u1" "a" note).0 "u2" "b" note kept older refl refl
