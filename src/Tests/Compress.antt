-- ===== src/Tests/Compress.antt =====
-- do_compress (utils/compress.c) of a directory of two files.
use mmdd_pro.Common.{◌≡◌, refl, true, false, [], ◌∷◌, some, codes, pos, negsuc}
use mmdd_pro.Compress.{Entry, Answers, packed, gzip, ustar, finished, do_compress}

abbrev first_file : Entry
first_file = record {
  found = true;
  path = codes "d/a";
  header = pos 0;
  bytes = some (1 ∷ 2 ∷ 3 ∷ []);
  reads = λ k. true;
}

-- One whose header cannot be written.
abbrev second_file : Entry
second_file = record {
  found = true;
  path = codes "d/b";
  header = negsuc 24;
  bytes = some (4 ∷ []);
  reads = λ k. true;
}

abbrev answers : Answers
answers = record {
  source = some (1 ∷ 2 ∷ 3 ∷ []);
  gz_opens = true;
  read_fails = λ k. false;
  accepted = λ k. 2;
  disk_opens = true;
  entries = first_file ∷ second_file ∷ [];
  lzma = pos 0;
}

do_compress_runs :
    do_compress answers 2 (pos 6) 4
    ≡ finished (pos 0) (packed gzip ustar ((codes "d/a", 1 ∷ 2 ∷ 3 ∷ []) ∷ []))
unfolding do_compress
do_compress_runs = refl

-- A file that cannot be read is an empty member of an archive with which all is well.
abbrev unread_file : Entry
unread_file = record first_file { reads = λ k. false }

do_compress_runs_on :
    do_compress (record answers { entries = unread_file ∷ [] }) 2 (pos 6) 4
    ≡ finished (pos 0) (packed gzip ustar ((codes "d/a", []) ∷ []))
unfolding do_compress
do_compress_runs_on = refl
