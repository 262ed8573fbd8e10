-- ===== src/BlobType/Kinds.antt =====
-- The labels of the kinds in the report.
use package.text.Mathlib.Text.{◌==◌ as str_eq}
use gocachez.Prelude.{◌≡◌, refl, ap, Option, some, List, [], ◌∷◌, String, find}
use gocachez.BlobType.{
  BlobTypeKind, go_package_archive, go_package_index, go_analysis_facts, unix_archive,
  generated_cgo_source, go_source, elf_binary, mach_o_binary, pe_binary, wasm_binary, c_compiler_id,
  go_test_output, go_test_input_log, go_coverage_profile, go_tool_output, go_source_file_list,
  go_tool_flag_probe, text, empty, unknown_binary, unreadable,
}

-- `label`
unfoldable pub label : BlobTypeKind → String
label go_package_archive = "Go package archives"
label go_package_index = "Go package indexes"
label go_analysis_facts = "Go analysis facts"
label unix_archive = "Unix archives"
label generated_cgo_source = "Generated cgo sources"
label go_source = "Go source files"
label elf_binary = "ELF binaries"
label mach_o_binary = "Mach-O binaries"
label pe_binary = "PE binaries"
label wasm_binary = "WebAssembly binaries"
label c_compiler_id = "C compiler IDs"
label go_test_output = "Go test outputs"
label go_test_input_log = "Go test input logs"
label go_coverage_profile = "Go coverage profiles"
label go_tool_output = "Go tool outputs"
label go_source_file_list = "Go source file lists"
label go_tool_flag_probe = "Go tool flag probes"
label text = "Text files"
label empty = "Empty files"
label unknown_binary = "Unknown binary files"
label unreadable = "Unreadable blobs"

abbrev all_kinds : List BlobTypeKind
all_kinds =
    go_package_archive ∷ go_package_index ∷ go_analysis_facts ∷ unix_archive ∷ generated_cgo_source
    ∷ go_source ∷ elf_binary ∷ mach_o_binary ∷ pe_binary ∷ wasm_binary ∷ c_compiler_id
    ∷ go_test_output ∷ go_test_input_log ∷ go_coverage_profile ∷ go_tool_output
    ∷ go_source_file_list ∷ go_tool_flag_probe ∷ text ∷ empty ∷ unknown_binary ∷ unreadable ∷ []

-- The kind that a label in the report belongs to.
unfoldable of_label : String → Option BlobTypeKind
unfolding label find
of_label l = find (λ k. str_eq (label k) l) all_kinds

of_label-label : (k : BlobTypeKind) → of_label (label k) ≡ some k
unfolding of_label
of_label-label go_package_archive = refl
of_label-label go_package_index = refl
of_label-label go_analysis_facts = refl
of_label-label unix_archive = refl
of_label-label generated_cgo_source = refl
of_label-label go_source = refl
of_label-label elf_binary = refl
of_label-label mach_o_binary = refl
of_label-label pe_binary = refl
of_label-label wasm_binary = refl
of_label-label c_compiler_id = refl
of_label-label go_test_output = refl
of_label-label go_test_input_log = refl
of_label-label go_coverage_profile = refl
of_label-label go_tool_output = refl
of_label-label go_source_file_list = refl
of_label-label go_tool_flag_probe = refl
of_label-label text = refl
of_label-label empty = refl
of_label-label unknown_binary = refl
of_label-label unreadable = refl

-- Two kinds never share a label, so that a tie in size still has one order in the report.
label-injective : (j k : BlobTypeKind) → label j ≡ label k → j ≡ k
label-injective j k h = cc (of_label-label j, of_label-label k, ap of_label h)
