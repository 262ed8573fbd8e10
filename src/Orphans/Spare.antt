-- ===== src/Orphans/Spare.antt =====
-- What `removeOrphans` never takes.
use gocachez.Prelude.{
  ℕ, ◌≡◌, refl, sym, ap, ◌∙◌, Bool, true, false, ◌||◌, Option, some, List, [], ◌∷◌, Bytes, All,
  same, same_iff, arith, Bool-cases, Option-cases, inl, inr,
}
use gocachez.Prelude.Int.{ℤ}
use gocachez.Catalog.{Catalog}
use gocachez.Files.{
  FilePath, Tree, blobs, retained, path_eq, tree_eq, output_of, referenced_output_ids,
}
use gocachez.Orphans.{
  Disk, unlink, Unlinking, is_recent, has_name, remove_shard_orphans, remove_orphans,
  keep_every_output,
}

same_tree : (s t : Tree) → tree_eq s t ≡ true → s ≡ t
same_tree blobs blobs h = refl
same_tree blobs retained h = absurd (ground arith)
same_tree retained blobs h = absurd (ground arith)
same_tree retained retained h = refl

path_of : (p q : FilePath) → p.tree ≡ q.tree → p.dir ≡ q.dir → p.base ≡ q.base → p ≡ q
path_of p q e f g = cc (e, f, g)

pub path_eq→eq : (p q : FilePath) → path_eq p q ≡ true → p ≡ q
path_eq→eq p q h =
    let dirs : same p.dir q.dir ≡ true = ground (arith, h) in
    let bases : same p.base q.base ≡ true = ground (arith, h) in
    path_of p q (same_tree p.tree q.tree (ground (arith, h))) ((same_iff p.dir q.dir).0 dirs)
      ((same_iff p.base q.base).0 bases)

module _ (u : Unlinking) (before : ℤ) (p : FilePath) where
  pub recent_as : (d e : Disk) → d p ≡ e p → is_recent u before d p ≡ is_recent u before e p
  unfolding is_recent
  recent_as d e h = rw h refl

  -- What saves a file from the removal in a shard.
  pub data Saved (referenced : List Bytes) (paths : List FilePath) (disk : Disk) : Type 0 where
    by_name : has_name referenced (output_of p.base) ≡ true → Saved referenced paths disk
    elsewhere : All (λ q. path_eq q p ≡ false) paths → Saved referenced paths disk
    by_time : is_recent u before disk p ≡ true → Saved referenced paths disk

  later_paths :
      (referenced : List Bytes) (q : FilePath) (paths : List FilePath) (d e : Disk)
      → d p ≡ e p
      → Saved referenced (q ∷ paths) d
      → Saved referenced paths e
  later_paths referenced q paths d e h (by_name n) = by_name n
  later_paths referenced q paths d e h (elsewhere a) = elsewhere a.1
  later_paths referenced q paths d e h (by_time t) = by_time (sym (recent_as d e h) ∙ t)

  not_taken :
      (referenced : List Bytes) (q : FilePath) (paths : List FilePath) (d : Disk)
      → Saved referenced (q ∷ paths) d
      → (has_name referenced (output_of q.base) || is_recent u before d q) ≡ false
      → path_eq q p ≡ false
  not_taken referenced q paths d (elsewhere a) f = a.0
  not_taken referenced q paths d (by_name n) f = elim (Bool-cases (path_eq q p)) [
    | inr g ↦ g
    | inl t ↦
        absurd (
          ground (arith, f, n, ap (λ r. has_name referenced (output_of r.base)) (path_eq→eq q p t)))
  ]
  not_taken referenced q paths d (by_time n) f = elim (Bool-cases (path_eq q p)) [
    | inr g ↦ g
    | inl t ↦ absurd (ground (arith, f, n, ap (is_recent u before d) (path_eq→eq q p t)))
  ]

  remove_shard_orphans-Saved :
      (referenced : List Bytes) (paths : List FilePath) (disk : Disk)
      → Saved referenced paths disk
      → (remove_shard_orphans u before referenced paths disk).1 p ≡ disk p
  unfolding remove_shard_orphans
  remove_shard_orphans-Saved referenced [] disk s = refl
  remove_shard_orphans-Saved referenced (q ∷ paths) disk s =
      elim (Bool-cases (has_name referenced (output_of q.base) || is_recent u before disk q)) [
        | inl t ↦
            rw (remove_shard_orphans, t)
              (remove_shard_orphans-Saved referenced paths disk
                (later_paths referenced q paths disk disk refl s))
        | inr f ↦
            let other = not_taken referenced q paths disk s f in
            let same_time : unlink q disk p ≡ disk p = unfold unlink in rw other refl in
            elim (Bool-cases (u.removes q)) [
              | inr g ↦ rw (remove_shard_orphans, f, g) refl
              | inl r ↦
                  rw (remove_shard_orphans, f, r)
                    (remove_shard_orphans-Saved referenced paths (unlink q disk)
                        (later_paths referenced q paths disk (unlink q disk) (sym same_time) s)
                      ∙ same_time)
            ]
      ]

  module _ (catalogs : ℕ → Option Catalog) (others : ℕ → Disk → Disk) (locks : ℕ → Bool)
      (untouched : (n : ℕ) (d : Disk) → others n d p ≡ d p) where
    pub remove_orphans-Saved :
        (orphans : List (ℕ × List FilePath)) (disk : Disk)
        → ((d : Disk)
            → d p ≡ disk p
            → All
                (λ (shard, paths).
                  (c : Catalog)
                  → catalogs shard ≡ some c
                  → Saved (referenced_output_ids shard keep_every_output c) paths d)
                orphans)
        → (remove_orphans catalogs others locks u before orphans disk).1 p ≡ disk p
    unfolding remove_orphans
    remove_orphans-Saved [] disk s = refl
    remove_orphans-Saved ((shard, paths) ∷ rest) disk s =
        let disk1 = others shard disk in
        let held = untouched shard disk in
        elim (Option-cases (catalogs shard)) [
          | inl n ↦ rw (remove_orphans, n) held
          | inr (c, e) ↦ elim (Bool-cases (locks shard)) [
            | inr f ↦ rw (remove_orphans, e, f) held
            | inl t ↦
                let referenced = referenced_output_ids shard keep_every_output c in
                let after =
                  remove_shard_orphans-Saved referenced paths disk1 ((s disk1 held).0 c e) ∙ held in
                let removed = remove_shard_orphans u before referenced paths disk1 in
                elim (Bool-cases removed.0) [
                  | inr f ↦ rw (remove_orphans, e, t, f) after
                  | inl k ↦
                      rw (remove_orphans, e, t, k)
                        (remove_orphans-Saved rest removed.1 (λ d h. (s d (h ∙ after)).1) ∙ after)
                ]
          ]
        ]
