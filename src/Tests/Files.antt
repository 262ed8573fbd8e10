-- ===== src/Tests/Files.antt =====
-- The theorems on orphan collection at a catalog with two outputs.
use mathlib.Core.Path.{subst}
use gocachez.Prelude.{
  Bool-cases, inl, inr, ℕ, ◌≡◌, ◌==◌, refl, ◌↔◌, ◌&&◌, true, Option, none, some, [], ◌∷◌, ◌++◌, map,
  Bytes, select, find, same, All, arith, codes, if◌then◌else◌,
}
use gocachez.Prelude.Int.{ℤ, pos, leb_ℤ, ◌-ℤ◌}
use gocachez.Catalog.{Catalog, init, has_output_id}
use gocachez.Expiry.{bytes_before}
use gocachez.Bytes.{has_prefix, has_suffix, trim_suffix}
use gocachez.Files.{
  FilePath, blobs, blob_path, encode, hex_digit, live_output_id, output_shard, shard_prefix,
  referenced_output_ids, ext_of, output_of,
}
use gocachez.Orphans.{
  Disk, Scan, Unlinking, keep_every_output, sweep_orphans, is_recent, remove_stale_pending_blobs,
}
use gocachez.Orphans.Hex.{live_output_id-eq-encode_iff}
use gocachez.Orphans.Shards.{referenced_output_ids_lem}
use gocachez.Orphans.Pending.{remove_stale_pending_blobs_lem, lists, is_leftover}
use gocachez.Orphans.Sweep.{
  IsReferenced, IsWalk, sweep_orphans-is_recent, sweep_orphans-IsReferenced,
}
use gocachez.Tests.Aging.{aged, fresh_output}

abbrev minute : ℤ
minute = pos 7200000000000

-- The blob of the second output, and one that nobody knows.
abbrev known_blob : FilePath
known_blob = blob_path (codes "0202")

abbrev unknown_blob : FilePath
unknown_blob = blob_path (codes "0203")

abbrev dead_blob : FilePath
dead_blob = record { tree = blobs; dir = codes "02"; base = codes "0203-pending-1.zst" }

abbrev files : Disk
files _ = some (pos 0)

abbrev walks : Scan
walks t dir = some (
    if same dir (codes "02")
    then (record known_blob { dir = dir }) ∷ (record unknown_blob { dir = dir }) ∷ []
    else [])

abbrev works : Unlinking
works = record { stats = λ _. true; removes = λ _. true }

abbrev at_all_times : ℕ → Option Catalog
at_all_times _ = some aged

shard_2 : referenced_output_ids 2 keep_every_output aged ≡ codes "0202" ∷ []
unfolding referenced_output_ids select bytes_before encode hex_digit
shard_2 = refl

referenced_output_ids_lem_example :
    referenced_output_ids 2 keep_every_output aged
    ≡ map
        (λ o. encode o.output_id)
        (select
          (λ o.
            same (output_shard (encode o.output_id)) (shard_prefix 2)
            && leb_ℤ keep_every_output o.accessed_at)
          aged.outputs)
referenced_output_ids_lem_example =
    referenced_output_ids_lem 2 keep_every_output aged (omega arith)
      (omega arith, (omega arith, tt))

live_output_id-eq-encode_iff_example :
    (live_output_id (codes "0202-d.a") ≡ encode (2 ∷ 2 ∷ []))
    ↔ ((rest : Bytes) × (codes "0202-d.a" ≡ encode (2 ∷ 2 ∷ []) ++ b'-' ∷ rest))
live_output_id-eq-encode_iff_example =
    live_output_id-eq-encode_iff (2 ∷ 2 ∷ []) (codes "0202-d.a") (λ e. absurd (cc))
      (omega arith, (omega arith, tt))

sweep_orphans-is_recent_example :
    (sweep_orphans at_all_times at_all_times walks
        (λ _ d. d)
        (λ _. true)
        works
        (pos 30000000000)
        files).1
      unknown_blob
    ≡ some (pos 0)
sweep_orphans-is_recent_example =
    sweep_orphans-is_recent at_all_times at_all_times walks (λ _ d. d) (λ _. true) works
      (pos 30000000000) files unknown_blob (λ _ _. refl) (unfold is_recent ◌-ℤ◌ in refl)

walk : IsWalk walks
walk t dir paths e = elim (Bool-cases (same dir (codes "02"))) [
  | inl h ↦
      let both : (record known_blob { dir = dir }) ∷ (record unknown_blob { dir = dir }) ∷ []
          ≡ paths =
        cc (rw h at e) in
      subst (All (λ p. p.dir ≡ dir)) both (refl, (refl, tt))
  | inr f ↦ let nothing : [] ≡ paths = cc (rw f at e) in subst (All (λ p. p.dir ≡ dir)) nothing tt
]

found_in :
    (c : Catalog) → aged ≡ c → find (has_output_id (2 ∷ 2 ∷ [])) c.outputs ≡ some fresh_output
unfolding find same
found_in c e = subst (λ x. find (has_output_id (2 ∷ 2 ∷ [])) x.outputs ≡ some fresh_output) e refl

-- The row is there only when the shard is collected.
abbrev recorded_late : ℕ → Option Catalog
recorded_late n = if n == 2 then some aged else some init

known : IsReferenced recorded_late 2 (2 ∷ []) known_blob
known = record {
  byte = omega arith;
  its_dir = unfold output_shard encode hex_digit in refl;
  its_name = unfold output_of ext_of trim_suffix has_suffix has_prefix encode hex_digit in refl;
  its_row = λ c e. (fresh_output, found_in c (cc e), refl);
}

sweep_orphans-IsReferenced_example :
    (sweep_orphans (λ _. some init) recorded_late walks (λ _ d. d) (λ _. true) works minute files).1
      known_blob
    ≡ some (pos 0)
sweep_orphans-IsReferenced_example =
    sweep_orphans-IsReferenced (λ _. some init) recorded_late walks (λ _ d. d) (λ _. true) works
      minute files known_blob 2 (2 ∷ []) walk (λ _ _. refl) known

remove_stale_pending_blobs_lem_example :
    (remove_stale_pending_blobs works minute (dead_blob ∷ []) files).1 dead_blob ≡ (
      if lists (dead_blob ∷ []) dead_blob && is_leftover works minute files dead_blob
      then none
      else some (pos 0))
remove_stale_pending_blobs_lem_example =
    remove_stale_pending_blobs_lem works minute (dead_blob ∷ []) files dead_blob
