-- ===== src/Util/Files/Tests.antt =====
-- read_file and write_file on a disk of one file, with room for so many bytes.
use distray.Base.{
  ◌≡◌, refl, ℕ, [], true, false, Option, none, some, Bytes, codes, length, leb, if◌then◌else◌,
}
use distray.Util.Files.{Streams, read_file, write_file}

abbrev room : ℕ → Streams
room n = record {
  Disk = Option Bytes;
  open_in = λ d pathname. d;
  open_out = λ d pathname. some (some []);
  insert =
      λ d pathname content. if leb (length content) n then (true, some content) else (false, d);
}

written_whole :
    let (success, d) = write_file (room 8) none (codes "out") (codes "pixels") in
    (success ≡ true) × (read_file (room 8) d (codes "out") ≡ some (codes "pixels"))
unfolding read_file write_file
written_whole = (refl, refl)

-- On a full disk write_file returns true, and the file is empty.
written_nothing :
    let (success, d) = write_file (room 4) none (codes "out") (codes "pixels") in
    (success ≡ true) × (read_file (room 4) d (codes "out") ≡ some [])
unfolding read_file write_file
written_nothing = (refl, refl)
