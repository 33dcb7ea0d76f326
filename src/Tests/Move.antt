-- ===== src/Tests/Move.antt =====
-- move_file (utils/utils.c) of a file of three bytes, in blocks of two.
use mmdd_pro.Common.{
  ℕ, ◌≢◌, refl, true, arith, List, [], ◌∷◌, none, some, codes, text_eq, text_eq_iff,
}
use mmdd_pro.Util.Move.{Store, put, Io, move_file}
use mmdd_pro.Util.Move.Laws.{Moves, move_file_lem}

abbrev io : Io
io = record {
  source_opens = true;
  stats = true;
  target_opens = true;
  blocksize = 2;
  reads = λ k. true;
  writes = λ k. 2;
  removes = true;
}

abbrev content : List ℕ
content = 1 ∷ 2 ∷ 3 ∷ []

abbrev disk : Store
disk = put (codes "/a") (some content) (λ q. none)

apart : codes "/b" ≢ codes "/a"
unfolding text_eq
apart e = cc ((text_eq_iff (codes "/b") (codes "/a")).1 e)

move_file_lem_example :
    Moves io
      (codes "/a")
      (codes "/b")
      apart
      content
      disk
      (move_file io (codes "/a") (codes "/b") 4 disk)
unfolding text_eq
move_file_lem_example =
    move_file_lem io (codes "/a") (codes "/b") apart content 4 disk (omega arith) (omega arith) refl
