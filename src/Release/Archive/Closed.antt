-- ===== src/Release/Archive/Closed.antt =====
-- cmd/release-integration/main.go: what the extraction of a binary leaves open.
use minecraft_ping.Base.{
  ◌≡◌, refl, ap, ◌∙◌, sym, Bool, true, false, List, [], ◌∷◌, ◌++◌, Bytes, Option, none, some,
  if◌then◌else◌, Result, ok, err, bytes_eq,
}
use minecraft_ping.Text.{codes, has_suffix}
use minecraft_ping.Effects.{
  Resource, zip_reader, archive_file, gzip_stream, target_root, source_file, temp_dir, Event,
  opened, closed, ◌>>◌, deferring, behind, backward,
}
use minecraft_ping.Effects.Balanced.{
  IsBalanced, IsTracked, deferring-IsBalanced, still_open, still_open-append,
}
use minecraft_ping.Release.Archive.{
  ArchiveError, Member, Archive, Step, with_open, write_target, copy_with_limit, copy_n,
  is_valid_size, max_extracted_binary_size, extract_zip_member, extract_tar_member, find_member,
  extract_zip_binary, open_read_only, open_read_only_file, extract_tar_gz_binary, extract_by_format,
  settled, extract_binary,
}

module _ {E : Type 0} where
  pub with_open-IsBalanced :
      {A B : Type 0} (r : Resource) (open_result : Result E A) (m : Step E B)
      → IsBalanced m
      → IsBalanced (with_open r open_result m)
  with_open-IsBalanced r (err e) m h = (refl, λ held. refl)
  with_open-IsBalanced r (ok a) m h =
      (h.0, λ held. deferring-IsBalanced r m held h ∙ ap (λ l. some (backward l ++ held)) (sym h.0))

  write_target-IsBalanced :
      (create : Result E (Unit {0})) (copied : Result (ArchiveError E) (Unit {0}))
      (close change : Result E (Unit {0}))
      → IsBalanced (write_target create copied close change)
  write_target-IsBalanced (err e) copied close change = (refl, λ held. refl)
  write_target-IsBalanced (ok u) (err e) close change = (refl, λ held. refl)
  write_target-IsBalanced (ok u) (ok v) (err e) change = (refl, λ held. refl)
  write_target-IsBalanced (ok u) (ok v) (ok w) (err e) = (refl, λ held. refl)
  write_target-IsBalanced (ok u) (ok v) (ok w) (ok x) = (refl, λ held. refl)

  pub if-IsBalanced :
      {A : Type 0} (b : Bool) (m k : Step E A)
      → IsBalanced m
      → IsBalanced k
      → IsBalanced (if b then m else k)
  if-IsBalanced true m k hm hk = hm
  if-IsBalanced false m k hm hk = hk

  extract_zip_member-IsBalanced : (member : Member E) → IsBalanced (extract_zip_member member)
  unfolding extract_zip_member
  extract_zip_member-IsBalanced member =
      if-IsBalanced (is_valid_size member.size) _ _
        (with_open-IsBalanced source_file member.open_source _ (
          write_target-IsBalanced member.create_target
            (copy_with_limit max_extracted_binary_size member.copied) member.close_target
            member.change_mode))
        (refl, λ held. refl)

  extract_tar_member-IsBalanced : (member : Member E) → IsBalanced (extract_tar_member member)
  unfolding extract_tar_member
  extract_tar_member-IsBalanced member =
      if-IsBalanced (is_valid_size member.size) _ _
        (write_target-IsBalanced member.create_target (copy_n member.copied) member.close_target
          member.change_mode)
        (refl, λ held. refl)

  find_member-IsBalanced :
      (extract : Member E → Step E (Unit {0})) (name : Bytes) (ends : Option E)
      (members : List (Member E))
      → ((member : Member E) → IsBalanced (extract member))
      → IsBalanced (find_member extract name ends members)
  find_member-IsBalanced extract name (some e) [] h = (refl, λ held. refl)
  find_member-IsBalanced extract name none [] h = (refl, λ held. refl)
  find_member-IsBalanced extract name ends (member ∷ members) h =
      if-IsBalanced (bytes_eq member.name name) _ _ (h member)
        (find_member-IsBalanced extract name ends members h)

  extract_zip_binary-IsBalanced :
      (archive : Archive E) (name : Bytes) → IsBalanced (extract_zip_binary archive name)
  unfolding extract_zip_binary
  extract_zip_binary-IsBalanced archive name =
      with_open-IsBalanced zip_reader archive.open_reader _ (
        with_open-IsBalanced target_root archive.open_target_root _ (
          find_member-IsBalanced extract_zip_member name none archive.members
            extract_zip_member-IsBalanced))

  pub with_archive_file-IsBalanced :
      {A : Type 0} (open_parent open_file close_parent : Result E (Unit {0})) (m : Step E A)
      → IsBalanced m
      → IsBalanced (open_read_only open_parent open_file close_parent >> deferring archive_file m)
  with_archive_file-IsBalanced (err e) open_file close_parent m h = (refl, λ held. refl)
  with_archive_file-IsBalanced (ok u) (err e) close_parent m h = (refl, λ held. refl)
  with_archive_file-IsBalanced (ok u) (ok v) (err e) m h = (refl, λ held. refl)
  with_archive_file-IsBalanced (ok u) (ok v) (ok w) m h = (
    h.0,
    λ held.
        deferring-IsBalanced archive_file m held h ∙ ap (λ l. some (backward l ++ held)) (sym h.0),
  )

  extract_tar_gz_binary-IsBalanced :
      (archive : Archive E) (name : Bytes) → IsBalanced (extract_tar_gz_binary archive name)
  unfolding extract_tar_gz_binary open_read_only_file
  extract_tar_gz_binary-IsBalanced archive name =
      with_archive_file-IsBalanced archive.open_parent archive.open_file archive.close_parent _ (
        with_open-IsBalanced gzip_stream archive.open_gzip _ (
          with_open-IsBalanced target_root archive.open_target_root _ (
            find_member-IsBalanced extract_tar_member name archive.next_header archive.members
              extract_tar_member-IsBalanced)))

  extract_by_format-IsBalanced :
      (archive : Archive E) (path name : Bytes) → IsBalanced (extract_by_format archive path name)
  extract_by_format-IsBalanced archive path name =
      if-IsBalanced (has_suffix path (codes ".zip")) _ _
        (extract_zip_binary-IsBalanced archive name)
        (if-IsBalanced (has_suffix path (codes ".tar.gz")) _ _
          (extract_tar_gz_binary-IsBalanced archive name) (refl, λ held. refl))

  settled-IsTracked :
      (r : Result (ArchiveError E) (Unit {0})) (events : List Event)
      → ((held : List Resource) → still_open held events ≡ some held)
      → IsTracked (behind (opened temp_dir ∷ events) [] (settled r))
  settled-IsTracked (ok u) events h held =
      still_open-append (temp_dir ∷ held) (temp_dir ∷ held) events [] (h (temp_dir ∷ held))
  settled-IsTracked (err e) events h held =
      still_open-append (temp_dir ∷ held) (temp_dir ∷ held) events (closed temp_dir ∷ [])
        (h (temp_dir ∷ held))

  pub extract_binary-IsTracked :
      (tmp : Result E (Unit {0})) (archive : Archive E) (path name : Bytes)
      → IsTracked (extract_binary tmp archive path name)
  unfolding extract_binary
  extract_binary-IsTracked (err e) archive path name = λ held. refl
  extract_binary-IsTracked (ok u) archive path name =
      let extraction = extract_by_format-IsBalanced archive path name in
      settled-IsTracked (extract_by_format archive path name).result
        (extract_by_format archive path name).events
        (λ held. extraction.1 held ∙ ap (λ l. some (backward l ++ held)) extraction.0)
