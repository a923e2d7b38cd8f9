-- ===== src/Sui/Walrus.antt =====
-- walrus.service.ts: the blobs of Walrus and their ids.
use arktion_sui_overflow.Prelude.{
  ℕ, ok, err, Result, Option, List, if◌then◌else◌, [], ◌++◌, Bool, some, ◌≡◌, ◌<◌, true, none, ◌∷◌,
  zero, length, ◌-◌, suc, false, ◌%◌, map, ◌==◌, is_some, refl, arith,
}
use arktion_sui_overflow.Text.{Text}
use arktion_sui_overflow.Text.Base64.{
  from_base64, to_base64url, sextets, sextet, base64url_char, IsSextets, split_sextets,
  split_sextets-IsSextets, join_sextets-split_sextets,
}
use arktion_sui_overflow.Text.Parts.{IsBytes}

-- `WalrusUploadResponse`, with the blob id of each of its parts.
pub record WalrusUploadResponse : Type 0 where
  pub newly_created : Option Text
  pub already_certified : Option Text

-- What `fetch` gives: it throws, or it gives an answer that is not ok or a JSON body.
pub data PublisherAnswer : Type 0 where
  unreachable : PublisherAnswer
  not_ok : ℕ → PublisherAnswer
  answered_with : WalrusUploadResponse → PublisherAnswer

pub data WalrusError : Type 0 where
  network_error unexpected_shape : WalrusError
  upload_failed download_failed invalid_blob_id : ℕ → WalrusError

pub record Uploaded : Type 0 where
  pub blob_id : Text
  pub blob_id_bytes : List ℕ
  pub is_new : Bool

-- `replace(/-/g, '+').replace(/_/g, '/')`
abbrev pub to_base64_char : ℕ → ℕ
to_base64_char c = if c == b'-' then b'+' else if c == b'_' then b'/' else c

abbrev pub equals_signs : ℕ → Text
equals_signs zero = []
equals_signs (suc n) = b'=' ∷ equals_signs n

-- `base64.padEnd(base64.length + ((4 - (base64.length % 4)) % 4), '=')`
unfoldable pub padded : Text → Text
padded s = s ++ equals_signs ((4 - length s % 4) % 4)

-- `blobIdToBytes`
unfoldable pub blob_id_to_bytes : Text → Result WalrusError (List ℕ)
unfolding padded from_base64
blob_id_to_bytes id =
    let bytes = from_base64 (padded (map to_base64_char id)) in
    if length bytes == 32 then ok bytes else err (invalid_blob_id (length bytes))

abbrev pub with_bytes : Text → Bool → Result WalrusError (List ℕ) → Result WalrusError Uploaded
with_bytes id is_new (ok bytes) =
    ok (record { blob_id = id; blob_id_bytes = bytes; is_new = is_new })
with_bytes id is_new (err e) = err e

abbrev pub read_response : WalrusUploadResponse → Result WalrusError Uploaded
read_response r = elim r.newly_created [
  | some id ↦ with_bytes id true (blob_id_to_bytes id)
  | none ↦ elim r.already_certified [
    | some id ↦ with_bytes id false (blob_id_to_bytes id)
    | none ↦ err unexpected_shape
  ]
]

-- `upload`, where `publisher` stores some bytes for a number of epochs.
unfoldable pub upload : (List ℕ → ℕ → PublisherAnswer) → List ℕ → Result WalrusError Uploaded
unfolding blob_id_to_bytes
upload publisher bytes = elim (publisher bytes 5) [
  | unreachable ↦ err network_error
  | not_ok status ↦ err (upload_failed status)
  | answered_with r ↦ read_response r
]

-- `download`, where the aggregator gives a status or the bytes of a blob.
unfoldable pub download : (Text → Result ℕ (List ℕ)) → Text → Result WalrusError (List ℕ)
download aggregator id = elim (aggregator id) [
  | ok bytes ↦ ok bytes
  | err status ↦ err (download_failed status)
]

sextets-equals_signs : (n : ℕ) → sextets (equals_signs n) ≡ []
unfolding sextets
sextets-equals_signs zero = refl
sextets-equals_signs (suc n) = refl

sextets_padded : (n : ℕ) (s : Text) → sextets (s ++ equals_signs n) ≡ sextets s
unfolding sextets
sextets_padded n [] = sextets-equals_signs n
sextets_padded n (c ∷ s) = ground (arith, sextets_padded n s)

sextet-char :
    (v : ℕ)
    → v < 64
    → (sextet (to_base64_char (base64url_char v)) ≡ some v)
      × ((to_base64_char (base64url_char v) == b'=') ≡ false)
unfolding sextet
sextet-char v h = (ground (arith, h), ground (arith, h))

sextets-chars :
    (vs : List ℕ) → IsSextets vs → sextets (map to_base64_char (map base64url_char vs)) ≡ vs
unfolding sextets
sextets-chars [] h = refl
sextets-chars (v ∷ vs) h = rw ((sextet-char v h.0).1, (sextet-char v h.0).0, sextets-chars vs h.1)

from_base64_id :
    (bs : List ℕ) → IsBytes bs → from_base64 (padded (map to_base64_char (to_base64url bs))) ≡ bs
unfolding from_base64 padded to_base64url
from_base64_id bs h =
    let chars : Text = map to_base64_char (map base64url_char (split_sextets bs)) in
    rw (
      sextets_padded ((4 - length chars % 4) % 4) chars,
      sextets-chars (split_sextets bs) (split_sextets-IsSextets bs h),
      join_sextets-split_sextets bs h,
    )

-- An id in base64url without padding decodes to the bytes that it encodes, if they are 32; an id of
-- any other number of bytes is refused with that number.
pub blob_id_to_bytes-to_base64url :
    (bs : List ℕ)
    → IsBytes bs
    → blob_id_to_bytes (to_base64url bs)
      ≡ (if length bs == 32 then ok bs else err (invalid_blob_id (length bs)))
unfolding blob_id_to_bytes
blob_id_to_bytes-to_base64url bs h = ground (arith, from_base64_id bs h)

-- The id in a publisher's response.
abbrev pub named : WalrusUploadResponse → Option Text
named r = elim r.newly_created [ some id ↦ some id | none ↦ r.already_certified ]

-- When the publisher names the blob by the base64url text of some bytes, as a new blob or as one that it
-- had, `upload` returns the name, the bytes, and whether the blob is new, if the bytes are 32; otherwise
-- it throws.
pub upload-named :
    (publisher : List ℕ → ℕ → PublisherAnswer) (content : List ℕ) (r : WalrusUploadResponse)
    (bs : List ℕ)
    → publisher content 5 ≡ answered_with r
    → named r ≡ some (to_base64url bs)
    → IsBytes bs
    → upload publisher content ≡ (
        if length bs == 32
        then ok (record {
          blob_id = to_base64url bs;
          blob_id_bytes = bs;
          is_new = is_some r.newly_created;
        })
        else err (invalid_blob_id (length bs)))
unfolding upload
upload-named publisher content r bs h k b = ground (arith, h, k, blob_id_to_bytes-to_base64url bs b)
