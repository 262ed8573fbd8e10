-- ===== src/Orphans/Pending.antt =====
-- The temporary files of puts that died.
use gocachez.Prelude.{
  ◌≡◌, refl, sym, ap, ◌∙◌, Bool, true, false, ◌&&◌, ◌||◌, Option, none, some, List, [], ◌∷◌,
  if◌then◌else◌, arith, Bool-cases, Option-cases, inl, inr,
}
use gocachez.Prelude.Int.{ℤ, ltb_ℤ, pos, ◌-ℤ◌}
use gocachez.Maintenance.Due.{mtime_interval}
use gocachez.Files.{FilePath, path_eq}
use gocachez.Orphans.{Disk, Unlinking, unlink, is_pending_blob, remove_stale_pending_blobs}
use gocachez.Orphans.Spare.{path_eq→eq}

abbrev pub lists : List FilePath → FilePath → Bool
lists [] p = false
lists (q ∷ qs) p = path_eq q p || lists qs p

abbrev pub is_older : Option ℤ → ℤ → Bool
is_older none cutoff = false
is_older (some at) cutoff = ltb_ℤ at cutoff

module _ (u : Unlinking) (now : ℤ) where
  -- A temporary file that is there, is more than an hour old and can be examined and removed.
  abbrev pub is_leftover : Disk → FilePath → Bool
  is_leftover disk p =
      is_pending_blob p.base
      && u.stats p
      && is_older (disk p) (now -ℤ pos mtime_interval)
      && u.removes p

  one_file :
      (p : FilePath) (ps : List FilePath) (disk : Disk)
      → (remove_stale_pending_blobs u now (p ∷ ps) disk).1
        ≡ (remove_stale_pending_blobs u now ps
            (if is_leftover disk p then unlink p disk else disk)).1
  unfolding remove_stale_pending_blobs
  one_file p ps disk = elim (Bool-cases (is_pending_blob p.base)) [
    | inr f ↦ rw (remove_stale_pending_blobs, f) refl
    | inl t ↦ elim (Option-cases (disk p)) [
      | inl n ↦ elim (Bool-cases (u.stats p)) [
        | inr f ↦ rw (remove_stale_pending_blobs, t, n, f) refl
        | inl s ↦ rw (remove_stale_pending_blobs, t, n, s) refl
      ]
      | inr (at, e) ↦ elim (Bool-cases (u.stats p)) [
        | inr f ↦ rw (remove_stale_pending_blobs, t, e, f) refl
        | inl s ↦ elim (Bool-cases (ltb_ℤ at (now -ℤ pos mtime_interval))) [
          | inr f ↦ rw (remove_stale_pending_blobs, t, e, s, f) refl
          | inl o ↦ elim (Bool-cases (u.removes p)) [
            | inr f ↦ rw (remove_stale_pending_blobs, t, e, s, o, f) refl
            | inl r ↦ rw (remove_stale_pending_blobs, t, e, s, o, r) refl
          ]
        ]
      ]
    ]
  ]

  -- What one file's turn does to a file.
  one_turn :
      (q : FilePath) (disk : Disk) (p : FilePath) (rest : Bool)
      → (let d = if is_leftover disk q then unlink q disk else disk in
          if rest && is_leftover d p then none else d p)
        ≡ (if (path_eq q p || rest) && is_leftover disk p then none else disk p)
  one_turn q disk p rest = elim (Bool-cases (is_leftover disk q)) [
    | inr held ↦ elim (Bool-cases (path_eq q p)) [
      | inr f ↦ rw (held, f) refl
      | inl t ↦
          let fresh : is_leftover disk p ≡ false =
            ap (is_leftover disk) (sym (path_eq→eq q p t)) ∙ held in
          rw (held, fresh) (ground (arith, fresh))
    ]
    | inl gone ↦ elim (Bool-cases (path_eq q p)) [
      | inr f ↦
          let v : unlink q disk p ≡ disk p = unfold unlink in rw f refl in rw (gone, v, f) refl
      | inl t ↦
          let v : unlink q disk p ≡ none = unfold unlink in rw t refl in
          let old : is_leftover disk p ≡ true =
            ap (is_leftover disk) (sym (path_eq→eq q p t)) ∙ gone in
          rw (gone, v, t, old) (ground arith)
    ]
  ]

  -- The pass removes exactly the temporary files that it finds, that are more than an hour old and
  -- that can be examined and removed: a file that fails stops no other, and every file that is no
  -- such leftover is as it was.
  pub remove_stale_pending_blobs_lem :
      (matches : List FilePath) (disk : Disk) (p : FilePath)
      → (remove_stale_pending_blobs u now matches disk).1 p
        ≡ (if lists matches p && is_leftover disk p then none else disk p)
  remove_stale_pending_blobs_lem [] disk p = unfold remove_stale_pending_blobs in refl
  remove_stale_pending_blobs_lem (q ∷ ps) disk p =
      ap (λ (d : Disk). d p) (one_file q ps disk)
      ∙ remove_stale_pending_blobs_lem ps (if is_leftover disk q then unlink q disk else disk) p
      ∙ one_turn q disk p (lists ps p)
