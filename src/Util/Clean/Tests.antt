-- ===== src/Util/Clean/Tests.antt =====
-- clean_string of utils/utils.c at concrete inputs.
use mmdd_pro.Common.{◌≡◌, refl, [], codes}
use mmdd_pro.Util.Clean.{clean_string}

clean_string_runs : clean_string (codes " \r ab c\n ") ≡ (codes "ab c", 4)
unfolding clean_string
clean_string_runs = refl

clean_string_blank : clean_string (codes " \n") ≡ ([], 0)
unfolding clean_string
clean_string_blank = refl

clean_string_one : clean_string (codes "a ") ≡ (codes "a", 1)
unfolding clean_string
clean_string_one = refl
