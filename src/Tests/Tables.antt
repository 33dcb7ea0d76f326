-- ===== src/Tests/Tables.antt =====
-- The tables and lists of monitor.c, servers.c, utils/compress.c and utils/encapsulate_queue.c at
-- concrete inputs.
use mmdd_pro.Common.{List, [], ◌∷◌, codes, pos}
use mmdd_pro.Watch.{WdNode}

abbrev watched : List WdNode
watched =
    record { wd = pos 1; path = codes "/a"; suboffset = 3; subpath = [] }
    ∷ record { wd = pos 2; path = codes "/b"; suboffset = 3; subpath = [] }
    ∷ []
