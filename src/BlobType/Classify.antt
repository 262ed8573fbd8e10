-- ===== src/BlobType/Classify.antt =====
-- What a classification says of the bytes.
use gocachez.Prelude.{
  ℕ, ◌≡◌, refl, ◌≢◌, ◌↔◌, ◌≤◌, ◌⊎◌, true, some, [], ◌∷◌, Bytes, length, take, All, arith, ◌==◌,
}
use gocachez.Bytes.{utf8_valid}
use gocachez.Archive.{package_archive_export_size}
use gocachez.Archive.Header.{package_archive_export_size-take}
use gocachez.BlobType.{
  go_package_archive, go_source, text, empty, unreadable, is_text_byte, all_text_bytes,
  is_likely_text, classify_blob_data,
}

-- Data that can be read is never classified as unreadable.
pub classify-ne-unreadable : (bs : Bytes) → classify_blob_data bs ≢ unreadable
unfolding classify_blob_data
classify-ne-unreadable bs = λ h. ground arith

classify-empty : (bs : Bytes) → classify_blob_data bs ≡ empty → (length bs == 0) ≡ true
unfolding classify_blob_data
classify-empty bs h = ground arith

-- Exactly the data that holds no byte is classified as empty.
pub classify-eq-empty_iff : (bs : Bytes) → (classify_blob_data bs ≡ empty) ↔ (bs ≡ [])
unfolding classify_blob_data
classify-eq-empty_iff [] = (λ _. refl, λ _. refl)
classify-eq-empty_iff (b ∷ bs) = (λ h. absurd (ground (arith, classify-empty (b ∷ bs))), λ h. cc)

classify-archive :
    (bs : Bytes)
    → classify_blob_data bs ≡ go_package_archive
    → (size : ℕ) × (package_archive_export_size bs ≡ some size)
unfolding classify_blob_data
classify-archive bs h = ground arith

classify_archive :
    (bs : Bytes) (size : ℕ)
    → package_archive_export_size bs ≡ some size
    → classify_blob_data bs ≡ go_package_archive
unfolding classify_blob_data package_archive_export_size
classify_archive [] size h = absurd (cc)
classify_archive (b ∷ bs) size h = rw h (ground arith)

-- A blob is counted as a Go package archive in the report exactly when its content begins with the
-- header by which closing a run recognises an archive to strip, whatever prefix of at least 68
-- bytes the classification reads.
pub classify-take-archive_iff :
    (n : ℕ) (bs : Bytes)
    → 68 ≤ n
    → (classify_blob_data (take n bs) ≡ go_package_archive)
      ↔ ((size : ℕ) × (package_archive_export_size bs ≡ some size))
classify-take-archive_iff n bs h = (
  λ e. rw (package_archive_export_size-take n bs h) at (classify-archive (take n bs) e),
  λ r. classify_archive (take n bs) r.0 (rw (package_archive_export_size-take n bs h) r.1),
)

-- Not a control character below the space, or a blank one.
abbrev pub IsTextByte : ℕ → Type 0
IsTextByte b = (32 ≤ b) ⊎ ((b ≡ 9) ⊎ ((b ≡ 10) ⊎ ((b ≡ 12) ⊎ (b ≡ 13))))

text_byte : (b : ℕ) → is_text_byte b ≡ true → IsTextByte b
unfolding is_text_byte
text_byte b h = ground arith

text_bytes : (bs : Bytes) → all_text_bytes bs ≡ true → All IsTextByte bs
unfolding all_text_bytes
text_bytes [] h = tt
text_bytes (b ∷ bs) h = (text_byte b (ground arith), text_bytes bs (ground arith))

classify-IsText :
    (bs : Bytes)
    → (classify_blob_data bs ≡ text) ⊎ (classify_blob_data bs ≡ go_source)
    → (utf8_valid bs ≡ true) × (all_text_bytes bs ≡ true)
unfolding classify_blob_data is_likely_text
classify-IsText bs h = ground arith

-- What is classified as text or as Go source is valid UTF-8 without control characters below the
-- space, but for a tab, a line feed, a form feed and a carriage return, and it is not empty.
pub classify-text :
    (bs : Bytes)
    → (classify_blob_data bs ≡ text) ⊎ (classify_blob_data bs ≡ go_source)
    → (bs ≢ []) × (utf8_valid bs ≡ true) × All IsTextByte bs
unfolding classify_blob_data
classify-text bs h =
    let f = classify-IsText bs h in (λ e. ground (arith, e, h), f.0, text_bytes bs f.1)
