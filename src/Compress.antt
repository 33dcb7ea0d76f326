-- ===== src/Compress.antt =====
-- do_compress of utils/compress.c, with do_compress_gz and do_compress_archive. What zlib, libarchive,
-- lzma and the files answer is a record; what the library is given to compress is the output.
pub mod Blocks
pub mod Laws
use mmdd_pro.Common.{
  ℕ, zero, suc, ◌+◌, Bool, true, false, ◌||◌, List, [], ◌∷◌, ◌++◌, Option, none, some,
  if◌then◌else◌, ◌==◌, Text, length, take, drop, ℤ, pos, minus_one, negsuc, eqb_ℤ, ltb_ℤ,
}

-- enum compress_type_e of utils/compress.h
abbrev pub compress_gz : ℤ
compress_gz = pos 0

abbrev pub compress_lzma : ℤ
compress_lzma = pos 4

abbrev pub compress_max : ℤ
compress_max = pos 11

pub data Filter : Type 0 where
  unfiltered gzip bzip2 lzw lzip : Filter

pub data Format : Type 0 where
  ustar zip seven_zip : Format

-- The switch; `none`: the default.
unfoldable pub packing_of : ℤ → Option (Filter × Format)
packing_of type =
    if eqb_ℤ type (pos 6) || eqb_ℤ type (pos 7)
    then some (gzip, ustar)
    else if eqb_ℤ type (pos 8) || eqb_ℤ type (pos 9)
    then some (bzip2, ustar)
    else if eqb_ℤ type (pos 1) || eqb_ℤ type (pos 10)
    then some (lzw, ustar)
    else if eqb_ℤ type (pos 2)
    then some (lzip, zip)
    else if eqb_ℤ type (pos 3)
    then some (lzip, seven_zip)
    else if eqb_ℤ type (pos 5)
    then some (unfiltered, ustar)
    else none

abbrev pub archive_failed : ℤ
archive_failed = negsuc 24

abbrev pub archive_fatal : ℤ
archive_fatal = negsuc 29

-- One answer of archive_read_next_header2 before ARCHIVE_EOF: whether it is ARCHIVE_OK, the entry's
-- path, what archive_write_header returns, the bytes of the file, if open succeeds, and whether the k-th
-- read succeeds.
pub record Entry : Type 0 where
  pub found : Bool
  pub path : Text
  pub header : ℤ
  pub bytes : Option (List ℕ)
  pub reads : ℕ → Bool

-- The source for fopen, whether gzopen and archive_read_disk_open succeed, whether the k-th fread
-- ends in an error, how many bytes the k-th gzwrite takes at most, the walk on the disk, and what
-- LzmaCompress returns.
pub record Answers : Type 0 where
  pub source : Option (List ℕ)
  pub gz_opens : Bool
  pub read_fails : ℕ → Bool
  pub accepted : ℕ → ℕ
  pub disk_opens : Bool
  pub entries : List Entry
  pub lzma : ℤ

abbrev pub Members : Type 0
Members = List (Text × List ℕ)

-- What the library has been given: nothing, the bytes of one file, or the members of an archive.
pub data Output : Type 0 where
  nothing : Output
  plain : List ℕ → Output
  packed : Filter → Format → Members → Output

-- `unfinished`: the fuel has run out. `null_closed`: archive_read_close is called on NULL.
pub data Result : Type 0 where
  unfinished null_closed : Result
  finished : ℤ → Output → Result

abbrev pub bytes_of_file : Option (List ℕ) → List ℕ
bytes_of_file none = []
bytes_of_file (some bytes) = bytes

module _ (io : Answers) (buff_size : ℕ) where
  -- The endless loop of do_compress_gz, from its k-th round on: what is left of the source, the
  -- value to be returned, and what gzwrite has taken.
  unfoldable pub gz_loop : ℕ → ℕ → List ℕ → ℤ → List ℕ → Result
  gz_loop zero k rest re out = unfinished
  gz_loop (suc fuel) k rest re out =
      let block = take buff_size rest in
      let taken = take (io.accepted k) block in
      let next_re = if length taken == length block then re else minus_one in
      let next = gz_loop fuel (suc k) (drop buff_size rest) next_re (out ++ taken) in
      let at_end = if length block == 0 then finished re (plain out) else next in
      if io.read_fails k then finished minus_one (plain out) else at_end

  unfoldable pub do_compress_gz : ℕ → Result
  unfolding gz_loop
  do_compress_gz fuel = elim io.source [
    | none ↦ finished minus_one nothing
    | some bytes ↦
        if io.gz_opens then gz_loop fuel 0 bytes (pos 0) [] else finished minus_one nothing
  ]

  -- The while loop of read and archive_write_data, from the k-th read on. A read that fails ends it
  -- like the end of the file does.
  unfoldable pub read_blocks : (ℕ → Bool) → ℕ → ℕ → List ℕ → List ℕ → Option (List ℕ)
  read_blocks reads zero k rest out = none
  read_blocks reads (suc fuel) k rest out =
      let block = take buff_size rest in
      let next = read_blocks reads fuel (suc k) (drop buff_size rest) (out ++ block) in
      let after_read = if length block == 0 then some out else next in
      if reads k then after_read else some out

  -- What archive_write_data is given for an entry. Where open fails, so does read.
  unfoldable pub with_data : ℕ → Entry → Members → Option Members
  unfolding read_blocks
  with_data fuel e ms = elim (read_blocks e.reads fuel 0 (bytes_of_file e.bytes) []) [
    | none ↦ none
    | some bytes ↦ some (ms ++ ((e.path, bytes) ∷ []))
  ]

  -- The loop over the walk, and the value to be returned.
  unfoldable pub archive_loop : ℕ → List Entry → Members → Option (ℤ × Members)
  unfolding with_data
  archive_loop fuel [] ms = some (pos 0, ms)
  archive_loop fuel (e ∷ es) ms =
      let skipped = archive_loop fuel es ms in
      let copied : Option (ℤ × Members) = elim (with_data fuel e ms) [
        | none ↦ none
        | some ms' ↦ archive_loop fuel es ms'
      ] in
      let written = if ltb_ℤ archive_failed e.header then copied else skipped in
      let added = if eqb_ℤ e.header archive_fatal then some (minus_one, ms) else written in
      if e.found then added else some (minus_one, ms)

  abbrev pub result_of : Filter → Format → Option (ℤ × Members) → Result
  result_of filter format none = unfinished
  result_of filter format (some (ret, ms)) = finished ret (packed filter format ms)

  unfoldable pub do_compress_archive : ℤ → ℕ → Result
  unfolding archive_loop packing_of
  do_compress_archive type fuel = elim (packing_of type) [
    | none ↦ null_closed
    | some (filter, format) ↦
        if io.disk_opens
        then result_of filter format (archive_loop fuel io.entries [])
        else finished minus_one (packed filter format [])
  ]

  unfoldable pub do_compress : ℤ → ℕ → Result
  unfolding do_compress_gz do_compress_archive
  do_compress type fuel =
      if eqb_ℤ type compress_gz
      then do_compress_gz fuel
      else if eqb_ℤ type compress_lzma
      then finished io.lzma nothing
      else if ltb_ℤ type compress_max
      then do_compress_archive type fuel
      else finished minus_one nothing
