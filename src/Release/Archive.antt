-- ===== src/Release/Archive.antt =====
-- cmd/release-integration/main.go: the release archive. The file system and the archive formats are
-- parameters: how each of their calls ends.
pub mod Closed
use minecraft_ping.Base.{
  ℕ, ◌+◌, ◌*◌, ◌^◌, ◌≡◌, refl, Bool, true, false, not, ◌&&◌, ◌||◌, List, [], ◌∷◌, ◌++◌, Bytes, take,
  drop, ltb, ◌==◌, if◌then◌else◌, Option, none, some, Result, ok, err, bytes_eq,
}
use minecraft_ping.Base.Int.{ℤ, pos, leb_ℤ, ltb_ℤ}
use minecraft_ping.Text.{codes, has_prefix, has_suffix, trim_prefix, index}
use minecraft_ping.Effects.{
  Resource, temp_dir, zip_reader, archive_root, archive_file, gzip_stream, target_root, source_file,
  target_file, Event, opened, closed, Act, done, ◌>>=◌, ◌>>◌, logged, opening, deferring, behind,
}

abbrev pub max_extracted_binary_size : ℕ
max_extracted_binary_size = 64 * 2 ^ 20

pub data ArchiveError (E : Type 0) : Type 0 where
  invalid_glob : E → ArchiveError E
  no_files_matched multiple_files_matched : ArchiveError E
  unexpected_name unsupported_name unsupported_format binary_not_found : ArchiveError E
  invalid_size : ℤ → ArchiveError E
  too_long : ℕ → ArchiveError E
  failed : E → ArchiveError E

-- A member of an archive: its name, its size, and how the calls on it end; `copied` is how many
-- bytes `io.Copy` finds.
pub record Member (E : Type 0) : Type 0 where
  pub name : Bytes
  pub size : ℤ
  pub open_source : Result E (Unit {0})
  pub create_target : Result E (Unit {0})
  pub copied : Result E ℕ
  pub close_target : Result E (Unit {0})
  pub change_mode : Result E (Unit {0})

-- The calls on the archive itself; `next_header` is how the reading of a tar ends, `none` for
-- `io.EOF`.
pub record Archive (E : Type 0) : Type 0 where
  pub open_reader : Result E (Unit {0})
  pub open_parent : Result E (Unit {0})
  pub open_file : Result E (Unit {0})
  pub close_parent : Result E (Unit {0})
  pub open_gzip : Result E (Unit {0})
  pub open_target_root : Result E (Unit {0})
  pub members : List (Member E)
  pub next_header : Option E

abbrev pub Step : Type 0 → Type 0 → Type 0
Step E A = Act (ArchiveError E) A

unfoldable pub is_valid_size : ℤ → Bool
is_valid_size size = not (leb_ℤ size (pos 0) || ltb_ℤ (pos max_extracted_binary_size) size)

module _ {E : Type 0} where
  abbrev pub attempt : {A : Type 0} → Result E A → Result (ArchiveError E) A
  attempt (ok a) = ok a
  attempt (err e) = err (failed e)

  abbrev pub call : {A : Type 0} → Result E A → Step E A
  call r = done (attempt r)

  -- An open, and a rest that closes what it opened when it ends.
  abbrev pub with_open : {A B : Type 0} → Resource → Result E A → Step E B → Step E B
  with_open r (ok a) m = behind (opened r ∷ []) [] (deferring r m)
  with_open r (err e) m = done (err (failed e))

  unfoldable pub resolve_single_file : Result E (List Bytes) → Result (ArchiveError E) Bytes
  resolve_single_file (err e) = err (invalid_glob e)
  resolve_single_file (ok []) = err no_files_matched
  resolve_single_file (ok (path ∷ [])) = ok path
  resolve_single_file (ok (path ∷ other ∷ paths)) = err multiple_files_matched

  abbrev pub version_before : Bytes → List Bytes → Result (ArchiveError E) Bytes
  version_before base [] = err unsupported_name
  version_before base (marker ∷ markers) = elim (index base marker) [
    | some i ↦ ok (trim_prefix (take i base) (codes "minecraft-ping_"))
    | none ↦ version_before base markers
  ]

  -- `base` is `filepath.Base(archivePath)`.
  unfoldable pub version_from_archive_name : Bytes → Result (ArchiveError E) Bytes
  unfolding has_prefix index trim_prefix
  version_from_archive_name base =
      if not (has_prefix base (codes "minecraft-ping_"))
      then err unexpected_name
      else version_before base (codes "_Darwin_" ∷ codes "_Linux_" ∷ codes "_Windows_" ∷ [])

  -- `io.Copy` from a reader that stops behind `limit + 1` bytes.
  unfoldable pub copy_with_limit : ℕ → Result E ℕ → Result (ArchiveError E) (Unit {0})
  copy_with_limit limit (err e) = err (failed e)
  copy_with_limit limit (ok available) =
      let written = if ltb (limit + 1) available then limit + 1 else available in
      if ltb limit written then err (too_long written) else ok tt

  -- `io.CopyN` of the size in the header.
  abbrev pub copy_n : Result E ℕ → Result (ArchiveError E) (Unit {0})
  copy_n (err e) = err (failed e)
  copy_n (ok written) = ok tt

  -- The target is open: it is closed whether the copy succeeds or fails, and a failing close counts.
  abbrev pub fill_target :
      Result (ArchiveError E) (Unit {0})
      → Result E (Unit {0})
      → Result E (Unit {0})
      → Step E (Unit {0})
  fill_target (err e) close_target change_mode = logged (closed target_file) >> done (err e)
  fill_target (ok u) close_target change_mode =
      logged (closed target_file) >> (call close_target >> call change_mode)

  abbrev pub write_target :
      Result E (Unit {0})
      → Result (ArchiveError E) (Unit {0})
      → Result E (Unit {0})
      → Result E (Unit {0})
      → Step E (Unit {0})
  write_target create_target copied close_target change_mode =
      opening target_file (attempt create_target) >> fill_target copied close_target change_mode

  unfoldable pub extract_zip_member : Member E → Step E (Unit {0})
  unfolding is_valid_size copy_with_limit
  extract_zip_member member =
      if is_valid_size member.size
      then with_open source_file member.open_source (
          write_target member.create_target
            (copy_with_limit max_extracted_binary_size member.copied) member.close_target
            member.change_mode)
      else done (err (invalid_size member.size))

  unfoldable pub extract_tar_member : Member E → Step E (Unit {0})
  unfolding is_valid_size
  extract_tar_member member =
      if is_valid_size member.size
      then write_target member.create_target (copy_n member.copied) member.close_target
          member.change_mode
      else done (err (invalid_size member.size))

  -- The loop over the members, up to the first with the name.
  abbrev pub find_member :
      (Member E → Step E (Unit {0})) → Bytes → Option E → List (Member E) → Step E (Unit {0})
  find_member extract name (some e) [] = done (err (failed e))
  find_member extract name none [] = done (err binary_not_found)
  find_member extract name ends (member ∷ members) =
      if bytes_eq member.name name then extract member else find_member extract name ends members

  unfoldable pub extract_zip_binary : Archive E → Bytes → Step E (Unit {0})
  unfolding extract_zip_member
  extract_zip_binary archive name = with_open zip_reader archive.open_reader (
      with_open target_root archive.open_target_root
        (find_member extract_zip_member name none archive.members))

  -- `openReadOnlyFile`: the root is closed in every case, and the file where that fails.
  abbrev pub close_root : Result E (Unit {0}) → Step E (Unit {0})
  close_root (ok u) = logged (closed archive_root)
  close_root (err e) =
      logged (closed archive_root) >> (logged (closed archive_file) >> done (err (failed e)))

  abbrev pub open_in_root : Result E (Unit {0}) → Result E (Unit {0}) → Step E (Unit {0})
  open_in_root (err e) close_parent = logged (closed archive_root) >> done (err (failed e))
  open_in_root (ok u) close_parent = logged (opened archive_file) >> close_root close_parent

  abbrev pub open_read_only :
      Result E (Unit {0}) → Result E (Unit {0}) → Result E (Unit {0}) → Step E (Unit {0})
  open_read_only open_parent open_file close_parent =
      opening archive_root (attempt open_parent) >> open_in_root open_file close_parent

  unfoldable pub open_read_only_file : Archive E → Step E (Unit {0})
  open_read_only_file archive =
      open_read_only archive.open_parent archive.open_file archive.close_parent

  -- What follows in a function that has opened the archive file, up to its deferred close.
  abbrev pub with_archive_file : {A : Type 0} → Archive E → Step E A → Step E A
  with_archive_file archive m = open_read_only_file archive >> deferring archive_file m

  unfoldable pub extract_tar_gz_binary : Archive E → Bytes → Step E (Unit {0})
  unfolding extract_tar_member open_read_only_file
  extract_tar_gz_binary archive name = with_archive_file archive (
      with_open gzip_stream archive.open_gzip (
        with_open target_root archive.open_target_root
          (find_member extract_tar_member name archive.next_header archive.members)))

  abbrev pub extract_by_format : Archive E → Bytes → Bytes → Step E (Unit {0})
  extract_by_format archive path name =
      if has_suffix path (codes ".zip")
      then extract_zip_binary archive name
      else if has_suffix path (codes ".tar.gz")
      then extract_tar_gz_binary archive name
      else done (err unsupported_format)

  -- `removeTempDir` goes to the caller, or is called where the extraction fails.
  abbrev pub settled : Result (ArchiveError E) (Unit {0}) → Step E (Unit {0})
  settled (ok u) = record { result = ok tt; events = []; registered = temp_dir ∷ [] }
  settled (err e) = logged (closed temp_dir) >> done (err e)

  unfoldable pub extract_binary :
      Result E (Unit {0}) → Archive E → Bytes → Bytes → Step E (Unit {0})
  unfolding extract_zip_binary extract_tar_gz_binary has_suffix
  extract_binary (err e) archive path name = done (err (failed e))
  extract_binary (ok u) archive path name =
      let extraction = extract_by_format archive path name in
      behind (opened temp_dir ∷ extraction.events) [] (settled extraction.result)
