-- ===== src/Orphans/Sweep.antt =====
-- What a sweep never takes: the files of outputs in the catalog and the recent ones.
use gocachez.Prelude.{
  ℕ, zero, suc, ◌+◌, ◌≤◌, ◌<◌, ◌≡◌, refl, sym, ap, ◌∙◌, Bool, true, Option, none, some, List, [],
  ◌∷◌, Bytes, All, All-imp, All-intro, All-select, All-append, same, same_iff, find, arith,
  Bool-cases, Option-cases, inl, inr, length, ◌==◌, codes,
}
use gocachez.Prelude.Int.{ℤ, leb_ℤ, pos, ◌-ℤ◌}
use gocachez.Catalog.{Catalog, OutputRow, has_output_id}
use gocachez.Files.{
  FilePath, Tree, blobs, retained, path_eq, output_of, encode, output_shard, shard_prefix,
  referenced_output_ids,
}
use gocachez.Orphans.{
  Disk, Unlinking, is_recent, has_name, keep_every_output, Scan, orphan_files_in_dir,
  orphans_in_shard, plan_shards, plan_orphans, sweep_orphans, orphan_grace,
}
use gocachez.Orphans.Shards.{output_shard-encode, shard_prefix-injective, referenced-has_name}
use gocachez.Orphans.Spare.{Saved, by_name, elsewhere, by_time, remove_orphans-Saved, recent_as}

-- A walk reports files of the directory that it walks.
abbrev pub IsWalk : Scan → Type 0
IsWalk scan =
    (t : Tree) (dir : Bytes) (paths : List FilePath)
    → scan t dir ≡ some paths
    → All (λ p. p.dir ≡ dir) paths

abbrev InShard : ℕ × List FilePath → Type 0
InShard (shard, paths) = (shard < 256) × All (λ p. p.dir ≡ shard_prefix shard) paths

abbrev AllIn : Bytes → Option (List FilePath) → Type 0
AllIn dir none = Unit
AllIn dir (some paths) = All (λ p. p.dir ≡ dir) paths

module _ (scan : Scan) (walk : IsWalk scan) where
  in_dir :
      (t : Tree) (dir : Bytes) (referenced extensions : List Bytes)
      → AllIn dir (orphan_files_in_dir (scan t dir) referenced extensions)
  unfolding orphan_files_in_dir
  in_dir t dir referenced extensions = elim (Option-cases (scan t dir)) [
    | inl n ↦ rw (orphan_files_in_dir, n) tt
    | inr (paths, e) ↦
        rw (orphan_files_in_dir, e) (All-select (λ p. p.dir ≡ dir) _ paths (walk t dir paths e))
  ]

  in_shard :
      (shard : ℕ) (referenced : List Bytes)
      → AllIn (shard_prefix shard) (orphans_in_shard scan true shard referenced)
  unfolding orphans_in_shard
  in_shard shard referenced =
      let dir = shard_prefix shard in
      let in_blobs = in_dir blobs dir referenced (codes ".zst" ∷ []) in
      let in_retained = in_dir retained dir referenced (codes ".a" ∷ codes ".go" ∷ []) in
      elim (Option-cases (orphan_files_in_dir (scan blobs dir) referenced (codes ".zst" ∷ []))) [
        | inl n ↦ rw (orphans_in_shard, n) tt
        | inr (found, e) ↦
            elim (Option-cases (
              orphan_files_in_dir (scan retained dir) referenced (codes ".a" ∷ codes ".go" ∷ []))) [
                | inl n ↦ rw (orphans_in_shard, e, n) tt
                | inr (paths, f) ↦
                    rw (orphans_in_shard, e, f)
                      (All-append (λ p. p.dir ≡ dir) found paths (rw e at in_blobs)
                        (rw f at in_retained))
              ]
      ]

  abbrev Planned : Option (List (ℕ × List FilePath)) → Type 0
  Planned none = Unit
  Planned (some orphans) = All InShard orphans

  plan_shards-Planned :
      (catalogs : ℕ → Option Catalog) (cutoff : ℤ) (left shard : ℕ)
      → left + shard ≤ 256
      → Planned (plan_shards catalogs scan true cutoff left shard)
  unfolding plan_shards
  plan_shards-Planned catalogs cutoff zero shard h = tt
  plan_shards-Planned catalogs cutoff (suc left) shard h =
      let rest_in = plan_shards-Planned catalogs cutoff left (shard + 1) (omega (arith, h)) in
      elim (Option-cases (catalogs shard)) [
        | inl n ↦ rw (plan_shards, n) tt
        | inr (c, e) ↦
            let referenced = referenced_output_ids shard cutoff c in
            let here = in_shard shard referenced in
            elim (Option-cases (orphans_in_shard scan true shard referenced)) [
              | inl n ↦ rw (plan_shards, e, n) tt
              | inr (found, f) ↦
                  elim (Option-cases (plan_shards catalogs scan true cutoff left (shard + 1))) [
                    | inl n ↦ rw (plan_shards, e, f, n) tt
                    | inr (rest, g) ↦ elim (Bool-cases (length found == 0)) [
                      | inl t ↦ rw (plan_shards, e, f, g, t) (rw g at rest_in)
                      | inr t ↦
                          rw (plan_shards, e, f, g, t)
                            ((omega (arith, h), rw f at here), rw g at rest_in)
                    ]
                  ]
            ]
      ]

-- A sweep never takes a file that was written in the last minute, whatever was planned and
-- whatever fails: where the file can be examined and no other process touches it meanwhile, it is
-- there afterwards as it was before.
pub sweep_orphans-is_recent :
    (planned removed : ℕ → Option Catalog) (scan : Scan) (others : ℕ → Disk → Disk)
    (locks : ℕ → Bool) (u : Unlinking) (now : ℤ) (disk : Disk) (p : FilePath)
    → ((n : ℕ) (d : Disk) → others n d p ≡ d p)
    → is_recent u (now -ℤ pos orphan_grace) disk p ≡ true
    → (sweep_orphans planned removed scan others locks u now disk).1 p ≡ disk p
unfolding sweep_orphans
sweep_orphans-is_recent planned removed scan others locks u now disk p untouched recent =
    elim (Option-cases (plan_orphans planned scan true keep_every_output)) [
      | inl n ↦ rw (sweep_orphans, n) refl
      | inr (orphans, e) ↦
          rw (sweep_orphans, e)
            (remove_orphans-Saved u before p removed others locks untouched orphans disk (λ d h.
              All-intro
                (λ x.
                  (c : Catalog)
                  → removed x.0 ≡ some c
                  → Saved u before p (referenced_output_ids x.0 keep_every_output c) x.1 d)
                (λ x c q. by_time (recent_as u before p d disk h ∙ recent)) orphans))
    ]
  where
    before : ℤ
    before = now -ℤ pos orphan_grace

-- The file is that of an output that has a row in the catalog that is read for the file's shard, of
-- which the number is the first byte of the ID.
pub record IsReferenced (catalogs : ℕ → Option Catalog) (b : ℕ) (bs : Bytes) (p : FilePath)
    : Type 0 where
  pub byte : b < 256
  pub its_dir : p.dir ≡ output_shard (encode (b ∷ bs))
  pub its_name : output_of p.base ≡ encode (b ∷ bs)
  pub its_row :
      (c : Catalog)
      → catalogs b ≡ some c
      → (o : OutputRow) × (find (has_output_id (b ∷ bs)) c.outputs ≡ some o)
        × (leb_ℤ keep_every_output o.accessed_at ≡ true)

module _ (catalogs : ℕ → Option Catalog) (b : ℕ) (bs : Bytes) (p : FilePath) (u : Unlinking)
    (before : ℤ) (r : IsReferenced catalogs b bs p) where
  referenced-Saved :
      (shard : ℕ) (paths : List FilePath) (d : Disk) (c : Catalog)
      → shard < 256
      → All (λ q. q.dir ≡ shard_prefix shard) paths
      → catalogs shard ≡ some c
      → Saved u before p (referenced_output_ids shard keep_every_output c) paths d
  referenced-Saved shard paths d c h a e = elim (Bool-cases (same (shard_prefix shard) p.dir)) [
    | inr f ↦ elsewhere (
        All-imp (λ q. q.dir ≡ shard_prefix shard) _ paths
          (λ q i. elim (Bool-cases (path_eq q p)) [
            | inr g ↦ g
            | inl t ↦
                let s : same q.dir p.dir ≡ true = ground (arith, t) in
                absurd (ground (arith, f, sym (ap (λ x. same x p.dir) i) ∙ s))
          ])
          a)
    | inl t ↦
        let its_shard : shard ≡ b =
          shard_prefix-injective shard b h r.byte
            ((same_iff (shard_prefix shard) p.dir).0 t ∙ r.its_dir ∙ output_shard-encode b bs) in
        let (o, found, kept) = r.its_row c (rw its_shard at e) in
        by_name (
          ap (has_name (referenced_output_ids shard keep_every_output c)) r.its_name
          ∙ ap (λ n. has_name (referenced_output_ids n keep_every_output c) (encode (b ∷ bs)))
              its_shard
          ∙ referenced-has_name b bs keep_every_output c o r.byte found kept)
  ]

-- A sweep never takes the file of an output that has a row in the catalog as it is read when the
-- file's own shard is collected, whatever the catalogs were of which the plan was made and that are
-- read for the other shards: where the walks report files of the directories that they walk and no
-- other process touches the file meanwhile, the file is there afterwards as it was before, whatever
-- fails.
pub sweep_orphans-IsReferenced :
    (planned removed : ℕ → Option Catalog) (scan : Scan) (others : ℕ → Disk → Disk)
    (locks : ℕ → Bool) (u : Unlinking) (now : ℤ) (disk : Disk) (p : FilePath) (b : ℕ) (bs : Bytes)
    → IsWalk scan
    → ((n : ℕ) (d : Disk) → others n d p ≡ d p)
    → IsReferenced removed b bs p
    → (sweep_orphans planned removed scan others locks u now disk).1 p ≡ disk p
unfolding sweep_orphans plan_orphans
sweep_orphans-IsReferenced planned removed scan others locks u now disk p b bs walk untouched r =
    let own = plan_shards-Planned scan walk planned keep_every_output 256 0 (omega arith) in
    elim (Option-cases (plan_shards planned scan true keep_every_output 256 0)) [
      | inl n ↦ rw (sweep_orphans, plan_orphans, n) refl
      | inr (orphans, e) ↦
          let own_shards : All InShard orphans = rw e at own in
          rw (sweep_orphans, plan_orphans, e)
            (remove_orphans-Saved u (now -ℤ pos orphan_grace) p removed others locks untouched
              orphans disk
              (λ d h.
                All-imp InShard _ orphans
                  (λ x i c q.
                    referenced-Saved removed b bs p u (now -ℤ pos orphan_grace) r x.0 x.1 d c i.0
                      i.1 q)
                  own_shards))
    ]
