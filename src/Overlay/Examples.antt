-- ===== src/Overlay/Examples.antt =====
-- A base of two files, one planned over and one deleted.
use reldir.Base.{
  ℕ, ◌≡◌, refl, arith, true, false, List, [], ◌∷◌, none, some, leb, ◌+◌, length, take, drop,
  if◌then◌else◌,
}
use reldir.Store.Corruption.{Bytes}
use reldir.Overlay.{
  FilePath, Meta, IoResult, Source, done, failed, not_found, unexpected_eof, written, written_bytes,
  path_eq, overlay,
}
use reldir.Overlay.Tree.{Files, planned, Shows}
use reldir.Overlay.Reads.{overlay-Shows}

-- `t/` and a name.
abbrev in_table : ℕ → FilePath
in_table c = (b't' ∷ []) ∷ (c ∷ []) ∷ []

abbrev held : List (FilePath × Bytes)
held = (in_table b'a', b'1' ∷ []) ∷ (in_table b'c', b'2' ∷ b'3' ∷ []) ∷ []

abbrev held_files : Files
held_files p = written_bytes p held

-- A source that holds these files and no directory.
abbrev held_source : Source
held_source = record {
  metadata = λ p. elim (held_files p) [ none ↦ failed not_found | some b ↦ done (written b) ];
  read_dir = λ p. failed not_found;
  read = λ p. elim (held_files p) [ none ↦ failed not_found | some b ↦ done b ];
  read_at = λ p offset len. elim (held_files p) [
    | none ↦ failed not_found
    | some b ↦
        if leb (offset + len) (length b)
        then done (take len (drop offset b))
        else failed unexpected_eof
  ];
}

held_source-Shows : Shows held_source held_files
unfolding written written_bytes path_eq
held_source-Shows = record {
  reads = λ p b e. rw e refl;
  misses = λ p e. (not_found, rw e refl);
  hides = λ p m e h.
      let lost : ◌≡◌ {A = IoResult Meta} (failed not_found) (done m) = rw e at h in absurd (cc);
  slices_nothing = λ p offset len e. (not_found, rw e refl);
  sizes = λ p b e. (written b, (rw e refl, (refl, refl)));
  slices = λ p b offset len e h k.
      let inside : leb (offset + len) (length b) ≡ true = ground (arith, k) in rw (e, inside) refl;
  ends = λ p b offset len e h k.
      let past : leb (offset + len) (length b) ≡ false = ground (arith, k) in
      (unexpected_eof, rw (e, past) refl);
}

abbrev change_writes : List (FilePath × Bytes)
change_writes = (in_table b'b', b'4' ∷ []) ∷ (in_table b'c', b'5' ∷ b'6' ∷ b'7' ∷ []) ∷ []

abbrev change_deletes : List FilePath
change_deletes = in_table b'a' ∷ []

overlay-Shows_example :
    Shows
      (overlay held_source change_writes change_deletes)
      (planned change_writes change_deletes held_files)
overlay-Shows_example =
    overlay-Shows held_source change_writes change_deletes held_files held_source-Shows
