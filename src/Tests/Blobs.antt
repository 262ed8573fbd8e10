-- ===== src/Tests/Blobs.antt =====
-- The classification at concrete data.
use gocachez.Prelude.{
  ℕ, ◌≡◌, ◌≢◌, refl, inr, none, some, List, [], ◌∷◌, ◌++◌, true, Bytes, codes, same, take, select,
  All, arith,
}
use mathlib.Core.Logic.{◌↔◌}
use mathlib.Core.List.Perm
use gocachez.Bytes.{
  has_prefix, has_suffix, contains, has_byte, contains_any, cut, split_from, split, is_ascii_space,
  is_space3, is_space2, space_width, last_space_width, trim_by, trim_space, trim_suffix,
  fields_from, fields, utf8_start, utf8_next, utf8_from, utf8_valid, digit, digits_from, parse_uint,
  parse_int,
}
use gocachez.Archive.{
  member_size, archive_member_header, package_archive_export_size, is_generated_cgo_source,
}
use gocachez.BlobType.{
  BlobTypeKind, has_any_prefix, has_mach_o_magic, is_stat_fields, is_c_compiler_id_stat,
  are_stat_pairs, is_c_compiler_id, looks_like_go_source, is_text_byte, all_text_bytes,
  is_likely_text, has_marker, is_go_test_output, is_go_test_input_log, is_go_coverage_profile,
  is_tool_line, is_go_tool_output, has_go_source_file_list_extension, is_go_source_file_list_path,
  all_paths, is_go_source_file_list, is_go_tool_flag_probe, classify_blob_data, go_package_archive,
  go_source,
}
use gocachez.BlobType.Classify.{
  IsTextByte, classify-eq-empty_iff, classify-take-archive_iff, classify-text,
}
use gocachez.BlobType.Tally.{
  size, column, share_in, is_pending, status_of, classify_blob_types, classify_blob_types-sum,
}
use gocachez.Catalog.Listing.{CatalogOutput, sum_of}

-- An archive with an export member of 12 bytes.
abbrev archive : Bytes
archive =
    codes "!<arch>\n"
    ++ codes "__.PKGDEF       0           0     0     644     12        `\n"
    ++ codes "go object x\n"

archive_size : package_archive_export_size archive ≡ some 12
unfolding package_archive_export_size same archive_member_header parse_int trim_space trim_suffix
archive_size = refl

classify-take-archive_iff_example :
    (classify_blob_data (take 68 archive) ≡ go_package_archive)
    ↔ ((n : ℕ) × (package_archive_export_size archive ≡ some n))
classify-take-archive_iff_example = classify-take-archive_iff 68 archive (omega arith)

classify-eq-empty_iff_example : (classify_blob_data archive ≡ BlobTypeKind.empty) ↔ (archive ≡ [])
classify-eq-empty_iff_example = classify-eq-empty_iff archive

source_text : classify_blob_data (codes "package p\n") ≡ go_source
unfolding classify_blob_data package_archive_export_size has_prefix contains is_generated_cgo_source
    has_mach_o_magic is_c_compiler_id is_go_test_output is_go_test_input_log is_go_coverage_profile
    cut same is_go_tool_output is_go_source_file_list is_likely_text utf8_valid all_text_bytes
    is_text_byte archive_member_header member_size all_paths are_stat_pairs has_any_prefix
    has_go_source_file_list_extension has_marker is_c_compiler_id_stat is_go_source_file_list_path
    is_go_tool_flag_probe is_stat_fields is_tool_line looks_like_go_source contains_any digit
    digits_from fields fields_from has_byte has_suffix is_ascii_space is_space2 is_space3
    last_space_width parse_int parse_uint space_width split split_from trim_by trim_space
    trim_suffix utf8_from utf8_next utf8_start
source_text = refl

classify-text_example :
    (codes "package p\n" ≢ [])
    × (utf8_valid (codes "package p\n") ≡ true)
    × All IsTextByte (codes "package p\n")
classify-text_example = classify-text (codes "package p\n") (inr source_text)

abbrev listed : List CatalogOutput
listed =
    record {
      output_id = 1 ∷ [];
      size = 10;
      compressed_size = 4;
      blob_type = some 3;
      retained_type = none;
    }
    ∷ record {
      output_id = 2 ∷ [];
      size = 20;
      compressed_size = 5;
      blob_type = none;
      retained_type = none;
    }
    ∷ []

classify_blob_types-sum_example :
    column size (status_of 3 (classify_blob_types (λ _. 3) listed (select is_pending listed)))
    ≡ sum_of (share_in (λ _. 3) size 3) listed
classify_blob_types-sum_example =
    classify_blob_types-sum (λ _. 3) listed (select is_pending listed) size 3 (Perm.refl _)
