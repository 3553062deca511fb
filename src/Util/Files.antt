-- ===== src/Util/Files.antt =====
-- src/util.cpp, read_file and write_file, over the file streams of the C++ library.
mod Tests
use distray.Base.{◌≡◌, refl, ap, ◌∙◌, Bool, true, false, Option, none, some, Bytes}

-- A disk, as streams see it: what an ifstream delivers of a file, where it can be opened, up to its end or
-- to an error; what is left of the disk when an ofstream, which truncates, has been opened; and what it is
-- when the ofstream has taken a text and is closed, and whether the text is there whole.
pub record Streams : Type 1 where
  pub Disk : Type 0
  pub open_in : Disk → Bytes → Option Bytes
  pub open_out : Disk → Bytes → Option Disk
  pub insert : Disk → Bytes → Bytes → Bool × Disk

module _ (streams : Streams) where
  open streams use {Disk, open_in, open_out, insert}

  -- `none` is the exception.
  unfoldable pub read_file : Disk → Bytes → Option Bytes
  read_file d pathname = elim (open_in d pathname) [ none ↦ none | some content ↦ some content ]

  unfoldable pub write_file : Disk → Bytes → Bytes → Bool × Disk
  write_file d pathname content = elim (open_out d pathname) [
    | none ↦ (false, d)
    | some d' ↦ (true, (insert d' pathname content).1)
  ]

  -- What write_file has written whole is read back, on streams that do so.
  pub read_file-write_file :
      (d d' : Disk) (pathname content : Bytes)
      → ((e e' : Disk)
          → insert e pathname content ≡ (true, e')
          → open_in e' pathname ≡ some content)
      → open_out d pathname ≡ some d'
      → (insert d' pathname content).0 ≡ true
      → let (success, after) = write_file d pathname content in
        (success ≡ true) × (read_file after pathname ≡ some content)
  unfolding read_file write_file
  read_file-write_file d d' pathname content keeps opens whole =
      let e' = (insert d' pathname content).1 in
      let there : open_in e' pathname ≡ some content = keeps d' e' (λ i. (whole i, e')) in
      rw (opens, write_file, there, read_file) (refl, refl)
