-- ===== src/Archive.antt =====
-- export_archive.go: recognising a Go package archive and generated sources by their bytes.
pub mod Header
use gocachez.Prelude.{
  ℕ, ◌+◌, ◌-◌, ◌^◌, Bool, true, false, not, ◌&&◌, ◌||◌, Option, none, some, List, [], ◌∷◌, Bytes,
  same, length, take, drop, codes, ◌==◌, ltb, leb, if◌then◌else◌,
}
use gocachez.Prelude.Int.{ℤ, pos, negsuc}
use gocachez.Bytes.{has_prefix, contains, trim_space, trim_suffix, trim_left, parse_int}

abbrev pub archive_magic : Bytes
archive_magic = codes "!<arch>\n"

abbrev pub archive_header_len : ℕ
archive_header_len = 60

abbrev pub pkgdef_name : Bytes
pkgdef_name = codes "__.PKGDEF"

-- `s[i:j]`
abbrev pub slice : Bytes → ℕ → ℕ → Bytes
slice bs i j = take (j - i) (drop i bs)

-- The size field of a member header, which must not be negative.
unfoldable pub member_size : Bytes → Option ℕ
member_size field = elim (parse_int 10 (trim_space field)) [
  | none ↦ none
  | some (pos n) ↦ some n
  | some (negsuc n) ↦ none
]

-- `archiveMemberHeader`: the name and the size; `none` where the source returns false.
unfoldable pub archive_member_header : Bytes → Option (Bytes × ℕ)
unfolding member_size
archive_member_header header =
    if ltb (length header) archive_header_len || not (same (slice header 58 60) (codes "`\n"))
    then none
    else elim (member_size (slice header 48 58)) [
      | none ↦ none
      | some size ↦ some (trim_suffix (trim_space (take 16 header)) (codes "/"), size)
    ]

-- `packageArchiveExportSize`
unfoldable pub package_archive_export_size : Bytes → Option ℕ
package_archive_export_size bs =
    if ltb (length bs) (length archive_magic + archive_header_len)
    then none
    else if not (same (take (length archive_magic) bs) archive_magic)
    then none
    else elim (archive_member_header
        (slice bs (length archive_magic) (length archive_magic + archive_header_len))) [
          | none ↦ none
          | some (name, size) ↦ if same name pkgdef_name then some size else none
        ]

-- `isGeneratedCgoSource`
unfoldable pub is_generated_cgo_source : Bytes → Bool
is_generated_cgo_source bs =
    if not (contains bs (codes "package "))
    then false
    else contains bs (codes "Code generated by cmd/cgo; DO NOT EDIT.")
      || contains bs (codes "//go:cgo_")

-- `isGeneratedTestmainSource`
unfoldable pub is_generated_testmain_source : Bytes → Bool
is_generated_testmain_source bs =
    has_prefix (trim_left bs (codes " \t\r\n"))
      (codes "// Code generated by 'go test'. DO NOT EDIT.\n\npackage main\n")

-- `retainedTypeKind` of status.go
pub data RetainedTypeKind : Type 0 where
  export_archive generated_cgo_source generated_testmain other : RetainedTypeKind

-- `retainedGeneratedSourceKind`; `none` where the source returns false.
unfoldable pub retained_generated_source_kind : Bytes → Option RetainedTypeKind
retained_generated_source_kind bs =
    if is_generated_cgo_source bs
    then some generated_cgo_source
    else if is_generated_testmain_source bs
    then some generated_testmain
    else none

-- `retainedFileKind` of status.go. `content` is what reading the file gives, none on an error.
unfoldable pub retained_file_kind : Bytes → Option Bytes → RetainedTypeKind
retained_file_kind ext content =
    if same ext (codes ".a")
    then export_archive
    else if same ext (codes ".go")
    then elim content [
      | none ↦ other
      | some bs ↦ elim (retained_generated_source_kind bs) [ none ↦ other | some kind ↦ kind ]
    ]
    else other
