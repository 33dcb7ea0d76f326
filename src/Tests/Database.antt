-- ===== src/Tests/Database.antt =====
-- mysql_query_get_res and mysql_query_free_res (utils/db.c) for a statement with two result sets.
use mmdd_pro.Common.{
  ℕ, zero, suc, ◌≡◌, refl, ap, ◌∙◌, true, List, [], ◌∷◌, none, some, arith, if◌then◌else◌, ◌==◌,
  ==_refl, codes, pos, negsuc, ℤ, eqb_ℤ,
}
use mmdd_pro.Database.{Client, mysql_query_get_res, mysql_query_free_res}
use mmdd_pro.Database.Laws.{Manual, Freed, mysql_query_free_res-get_res}

-- The result sets that are stored, the number of the next one, and the results to come.
record Session : Type 0 where
  stored : List ℕ
  number : ℕ
  left : ℕ

unfoldable remove : ℕ → List ℕ → List ℕ
remove res [] = []
remove res (r ∷ rs) = let rest = remove res rs in if r == res then rs else r ∷ rest

-- The answer to mysql_next_result, for the number of results to come.
unfoldable next : ℕ → Session → ℤ × Session
next zero s = (negsuc 0, s)
next (suc n) s = (pos 0, record s { left = n })

abbrev client : Client Session
client = record {
  init = λ s. (some 1, s);
  real_connect = λ handle login s. (true, s);
  query = λ handle sql s. (pos 0, record s { left = 1 });
  rollback = λ handle s. s;
  store_result = λ handle s. (
    some s.number,
    record { stored = s.number ∷ s.stored; number = suc s.number; left = s.left },
  );
  next_result = λ handle s. next s.left s;
  free_result = λ res s. record s { stored = remove res s.stored };
  commit = λ handle s. s;
  close = λ handle s. s;
}

remove_lem : (res : ℕ) (others : List ℕ) → remove res (res ∷ others) ≡ others
unfolding remove
remove_lem res others = ground (arith, ==_refl res)

next-stored : (n : ℕ) (s : Session) → (next n s).1.stored ≡ s.stored
unfolding next
next-stored zero s = refl
next-stored (suc n) s = refl

next-left : (n : ℕ) (s : Session) → eqb_ℤ (next n s).0 (pos 0) ≡ true → suc (next n s).1.left ≡ n
unfolding next
next-left zero s e = absurd (ground arith)
next-left (suc n) s e = refl

client-Manual : Manual client (λ s. s.stored) (λ handle s. s.left)
client-Manual = record {
  query_live = λ handle sql s. refl;
  store_none = λ handle s e. absurd (ground arith);
  store_some = λ handle s res e. ap (λ r. r ∷ s.stored) (ground arith);
  store_pending = λ handle s. refl;
  free_live = λ res s others e. ap (remove res) e ∙ remove_lem res others;
  free_pending = λ handle res s. refl;
  next_live = λ handle s. next-stored s.left s;
  next_pending = λ handle s e. next-left s.left s e;
}

abbrev session : Session
session = record { stored = 7 ∷ []; number = 8; left = 0 }

mysql_query_free_res-get_res_example :
    Freed
      (λ s. s.stored)
      (7 ∷ [])
      (mysql_query_free_res client 2
        (some 1)
        (some 8)
        (mysql_query_get_res client (some 1) (codes "select") none session).1)
unfolding mysql_query_get_res
mysql_query_free_res-get_res_example =
    mysql_query_free_res-get_res client (λ s. s.stored) (λ handle s. s.left) client-Manual 2 1
      (codes "select") session refl (omega arith)
