-- ===== src/Archive/Header.antt =====
-- What `packageArchiveExportSize` reads of a file.
use gocachez.Prelude.{
  ℕ, zero, suc, ◌+◌, ◌≤◌, ◌≡◌, refl, ap, [], ◌∷◌, Bytes, length, take, drop, length-take, ltb,
  arith,
}
use gocachez.Archive.{package_archive_export_size}

take-take : (m n : ℕ) (bs : Bytes) → m ≤ n → take m (take n bs) ≡ take m bs
take-take zero n bs h = refl
take-take (suc m) zero bs h = absurd (omega arith)
take-take (suc m) (suc n) [] h = refl
take-take (suc m) (suc n) (b ∷ bs) h = ap (◌∷◌ b) (take-take m n bs (omega arith))

take-drop-take :
    (i k n : ℕ) (bs : Bytes) → i + k ≤ n → take k (drop i (take n bs)) ≡ take k (drop i bs)
take-drop-take zero k n bs h = take-take k n bs (omega arith)
take-drop-take (suc i) k zero bs h = absurd (omega arith)
take-drop-take (suc i) zero (suc n) bs h = refl
take-drop-take (suc i) (suc k) (suc n) [] h = refl
take-drop-take (suc i) (suc k) (suc n) (b ∷ bs) h = take-drop-take i (suc k) n bs (omega arith)

too_short-take : (n m : ℕ) (bs : Bytes) → m ≤ n → ltb (length (take n bs)) m ≡ ltb (length bs) m
too_short-take n m bs h = ground (arith, length-take n bs)

-- The size that is found depends only on the first 68 bytes: a file is classified alike by the
-- header that closing a run reads, by the prefix of 64 KiB that status reads and by its whole
-- content.
pub package_archive_export_size-take :
    (n : ℕ) (bs : Bytes)
    → 68 ≤ n
    → package_archive_export_size (take n bs) ≡ package_archive_export_size bs
unfolding package_archive_export_size
package_archive_export_size-take n bs h = rw (
  too_short-take n 68 bs h,
  take-take 8 n bs (omega arith),
  take-drop-take 8 60 n bs (omega arith),
)
