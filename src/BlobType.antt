-- ===== src/BlobType.antt =====
-- blob_type.go: the kinds of cached files and how they are recognised by their first bytes.
pub mod Kinds
pub mod Classify
pub mod Tally
use gocachez.Prelude.{
  ℕ, ◌+◌, ◌-◌, ◌*◌, ◌%◌, ◌^◌, Bool, true, false, not, ◌&&◌, ◌||◌, Option, none, some, List, [], ◌∷◌,
  ◌++◌, Bytes, same, length, take, drop, codes, String, ◌==◌, ltb, leb, if◌then◌else◌, zero, suc,
}
use gocachez.Bytes.{
  has_prefix, has_suffix, contains, contains_any, cut, split, trim_space, fields, utf8_valid,
  parse_int, parse_uint,
}
use gocachez.Archive.{archive_magic, package_archive_export_size, is_generated_cgo_source}

abbrev pub blob_type_prefix_limit : ℕ
blob_type_prefix_limit = 64 * 2 ^ 10

-- `blobTypeKind`, in the order of its constants.
pub data BlobTypeKind : Type 0 where
  go_package_archive go_package_index go_analysis_facts unix_archive : BlobTypeKind
  generated_cgo_source go_source elf_binary mach_o_binary pe_binary wasm_binary : BlobTypeKind
  c_compiler_id go_test_output go_test_input_log go_coverage_profile go_tool_output : BlobTypeKind
  go_source_file_list go_tool_flag_probe text empty unknown_binary unreadable : BlobTypeKind

unfoldable pub has_any_prefix : Bytes → List Bytes → Bool
has_any_prefix bs [] = false
has_any_prefix bs (p ∷ ps) = has_prefix bs p || has_any_prefix bs ps

-- `hasMachOMagic`
unfoldable pub has_mach_o_magic : Bytes → Bool
unfolding has_any_prefix
has_mach_o_magic bs = has_any_prefix bs (
    (0xfe ∷ 0xed ∷ 0xfa ∷ 0xce ∷ [])
    ∷ (0xce ∷ 0xfa ∷ 0xed ∷ 0xfe ∷ [])
    ∷ (0xfe ∷ 0xed ∷ 0xfa ∷ 0xcf ∷ [])
    ∷ (0xcf ∷ 0xfa ∷ 0xed ∷ 0xfe ∷ [])
    ∷ (0xca ∷ 0xfe ∷ 0xba ∷ 0xbe ∷ [])
    ∷ [])

abbrev last_or {ℓ} : {A : Type ℓ} → A → List A → A
last_or d [] = d
last_or d (x ∷ xs) = last_or x xs

abbrev is_some {ℓ} : {A : Type ℓ} → Option A → Bool
is_some none = false
is_some (some a) = true

-- `isCCompilerIDStat`: six fields at least, of which the first three are named here.
unfoldable pub is_stat_fields : List Bytes → Bool
is_stat_fields (f0 ∷ f1 ∷ f2 ∷ f3 ∷ f4 ∷ f5 ∷ fs) =
    same f0 (codes "stat")
    && (same (last_or f5 fs) (codes "true") || same (last_or f5 fs) (codes "false"))
    && is_some (parse_int 10 f1)
    && is_some (parse_uint 16 f2)
is_stat_fields _ = false

unfoldable pub is_c_compiler_id_stat : Bytes → Bool
unfolding is_stat_fields
is_c_compiler_id_stat bs = has_suffix bs (codes "\n") && is_stat_fields (fields bs)

-- The loop of `isCCompilerID` over pairs of a name and its stat; an odd number of fields fails.
unfoldable pub are_stat_pairs : List Bytes → Bool
are_stat_pairs [] = true
are_stat_pairs (name ∷ []) = false
are_stat_pairs (name ∷ stat ∷ fs) =
    not (length name == 0) && is_c_compiler_id_stat stat && are_stat_pairs fs

unfoldable pub is_c_compiler_id : Bytes → Bool
unfolding are_stat_pairs
is_c_compiler_id bs =
    if leb (length bs) 32
    then false
    else let metadata = take (length bs - 32) bs in
      if length metadata == 0 || not (last_or 1 metadata == 0)
      then false
      else are_stat_pairs (split (take (length metadata - 1) metadata) 0)

-- `looksLikeGoSource`
unfoldable pub looks_like_go_source : Bytes → Bool
looks_like_go_source bs =
    has_prefix (trim_space bs) (codes "package ") || contains bs (codes "\npackage ")

-- `isLikelyText`
unfoldable pub is_text_byte : ℕ → Bool
is_text_byte b =
    not (b == 0)
    && not (ltb b 0x20 && not (b == 10) && not (b == 13) && not (b == 9) && not (b == 12))

unfoldable pub all_text_bytes : Bytes → Bool
all_text_bytes [] = true
all_text_bytes (b ∷ bs) = is_text_byte b && all_text_bytes bs

unfoldable pub is_likely_text : Bytes → Bool
is_likely_text bs = if not (utf8_valid bs) then false else all_text_bytes bs

-- `isGoTestOutput`
abbrev pub go_test_markers : List Bytes
go_test_markers =
    (22 ∷ codes "=== RUN")
    ∷ (22 ∷ codes "=== PAUSE")
    ∷ (22 ∷ codes "=== NAME")
    ∷ (22 ∷ codes "=== CONT")
    ∷ (22 ∷ codes "--- PASS")
    ∷ (22 ∷ codes "--- FAIL")
    ∷ (22 ∷ codes "--- SKIP")
    ∷ (22 ∷ codes "PASS\n")
    ∷ (22 ∷ codes "FAIL\n")
    ∷ codes "ok  \t"
    ∷ codes "?   \t"
    ∷ codes "FAIL\t"
    ∷ codes "PASS\nok  \t"
    ∷ codes "PASS\n?   \t"
    ∷ codes "FAIL\nFAIL\t"
    ∷ []

unfoldable pub has_marker : Bytes → List Bytes → Bool
has_marker bs [] = false
has_marker bs (m ∷ ms) = has_prefix bs m || contains bs (codes "\n" ++ m) || has_marker bs ms

unfoldable pub is_go_test_output : Bytes → Bool
unfolding has_marker
is_go_test_output bs = has_marker bs go_test_markers

-- `isGoTestInputLog`
unfoldable pub is_go_test_input_log : Bytes → Bool
is_go_test_input_log bs = has_prefix bs (codes "# test log\n")

-- `isGoCoverageProfile`
unfoldable pub is_go_coverage_profile : Bytes → Bool
is_go_coverage_profile bs = elim (cut bs 10) [
  | none ↦ false
  | some (line, _) ↦
      same line (codes "mode: set")
      || same line (codes "mode: count")
      || same line (codes "mode: atomic")
]

-- `isGoToolOutput`
unfoldable pub is_tool_line : Bytes → Bool
is_tool_line line =
    if not (has_prefix line (codes "# ")) || same line (codes "# test log")
    then false
    else let name = drop 2 line in ltb 0 (length name) && not (contains_any name (codes " \t"))

unfoldable pub is_go_tool_output : Bytes → Bool
unfolding is_tool_line
is_go_tool_output bs = elim (cut bs 10) [ none ↦ false | some (line, _) ↦ is_tool_line line ]

-- `hasGoSourceFileListExtension` and `isGoSourceFileListPath`
unfoldable pub has_go_source_file_list_extension : Bytes → Bool
has_go_source_file_list_extension path =
    has_suffix path (codes ".go") || has_suffix path (codes ".s") || has_suffix path (codes ".c")

unfoldable pub is_go_source_file_list_path : Bytes → Bool
is_go_source_file_list_path path =
    if length path == 0
      || has_prefix path (codes "/")
      || has_prefix path (codes "../")
      || contains_any path (codes " \t\r")
    then false
    else has_prefix path (codes "./") || has_go_source_file_list_extension path

unfoldable pub all_paths : List Bytes → Bool
all_paths [] = true
all_paths (l ∷ ls) = is_go_source_file_list_path l && all_paths ls

-- `isGoSourceFileList`
unfoldable pub is_go_source_file_list : Bytes → Bool
unfolding all_paths
is_go_source_file_list bs =
    if not (is_likely_text bs)
    then false
    else let lines = split bs 10 in
      if length (last_or [] lines) == 0 || length bs == blob_type_prefix_limit
      then (let rest = take (length lines - 1) lines in all_paths rest && ltb 0 (length rest))
      else false

-- `isGoToolFlagProbe`
unfoldable pub is_go_tool_flag_probe : Bytes → Bool
is_go_tool_flag_probe bs = same bs (codes "true") || same bs (codes "false")

-- `classifyBlobData`
unfoldable pub classify_blob_data : Bytes → BlobTypeKind
classify_blob_data bs =
    if length bs == 0
    then empty
    else if is_some (package_archive_export_size bs)
    then go_package_archive
    else if has_prefix bs (codes "go index v")
    then go_package_index
    else if contains bs (codes "gobFact")
    then go_analysis_facts
    else if has_prefix bs archive_magic
    then unix_archive
    else if is_generated_cgo_source bs
    then generated_cgo_source
    else if has_prefix bs (0x7f ∷ codes "ELF")
    then elf_binary
    else if has_prefix bs (codes "MZ")
    then pe_binary
    else if has_prefix bs (0x00 ∷ codes "asm")
    then wasm_binary
    else if has_mach_o_magic bs
    then mach_o_binary
    else if is_c_compiler_id bs
    then c_compiler_id
    else if is_go_test_output bs
    then go_test_output
    else if is_go_test_input_log bs
    then go_test_input_log
    else if is_go_coverage_profile bs
    then go_coverage_profile
    else if is_go_tool_output bs
    then go_tool_output
    else if is_go_source_file_list bs
    then go_source_file_list
    else if is_go_tool_flag_probe bs
    then go_tool_flag_probe
    else if is_likely_text bs
    then (if looks_like_go_source bs then go_source else text)
    else unknown_binary
