-- ===== src/Compress/Laws.antt =====
-- What do_compress has compressed when it returns NEWIUP_OK (utils/compress.c).
use mmdd_pro.Common.{
  ℕ, ◌≤◌, ◌<◌, ◌≡◌, true, List, [], ◌∷◌, Option, none, some, if◌then◌else◌, length, ℤ, pos, eqb_ℤ,
  ltb_ℤ,
}
use mmdd_pro.Compress.{
  compress_gz, compress_lzma, packing_of, archive_failed, Entry, Answers, Members, Output, nothing,
  plain, packed, Result, unfinished, null_closed, finished, bytes_of_file,
}

-- The file of an entry can be opened and read to its end, and has fewer bytes than `fuel`.
pub record IsReadable (fuel : ℕ) (e : Entry) : Type 0 where
  pub file : List ℕ
  pub opens : e.bytes ≡ some file
  pub reads : (k : ℕ) → e.reads k ≡ true
  pub small : length file < fuel

module _ (io : Answers) (buff_size : ℕ) (room : 1 ≤ buff_size) where
  -- The members of a walk: those whose header has been written.
  abbrev pub members_of : List Entry → Members
  members_of [] = []
  members_of (e ∷ es) =
      if ltb_ℤ archive_failed e.header
      then (e.path, bytes_of_file e.bytes) ∷ members_of es
      else members_of es

  abbrev Walks : Members → Option (ℤ × Members) → Type 0
  Walks expected none = ⊥
  Walks expected (some (ret, ms)) = ret ≡ pos 0 → ms ≡ expected

  -- What a type stands for: the bytes of the source for gz, nothing of its own for lzma, the members
  -- of the walk for an archive.
  abbrev pub contents : ℤ → Output
  contents type =
      if eqb_ℤ type compress_gz
      then plain (bytes_of_file io.source)
      else if eqb_ℤ type compress_lzma
      then nothing
      else elim (packing_of type) [
        | none ↦ nothing
        | some (filter, format) ↦ packed filter format (members_of io.entries)
      ]

  -- If NEWIUP_OK is returned then this has been compressed.
  abbrev pub Gives : Output → Result → Type 0
  Gives expected unfinished = ⊥
  Gives expected null_closed = ⊥
  Gives expected (finished ret out) = ret ≡ pos 0 → out ≡ expected
