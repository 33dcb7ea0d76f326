-- ===== src/Database.antt =====
-- The database: the four functions of utils/db.c. MySQL's client library is a record of the calls
-- that they make, on a state of its own; a handle and a result set are numbers.
pub mod Laws
use mmdd_pro.Common.{
  ℕ, zero, suc, Bool, true, false, List, [], ◌∷◌, Option, none, some, if◌then◌else◌, Text, ℤ, pos,
  negsuc, eqb_ℤ,
}

-- The arguments of OpenDB.
pub record Login : Type 0 where
  pub host : Text
  pub user : Text
  pub passwd : Text
  pub db : Text
  pub port : ℕ

-- mysql_init, mysql_real_connect and so on. NULL is `none`, and `true` a pointer that is not NULL.
pub record Client (S : Type 0) : Type 0 where
  pub init : S → Option ℕ × S
  pub real_connect : ℕ → Login → S → Bool × S
  pub query : ℕ → Text → S → ℤ × S
  pub rollback : ℕ → S → S
  pub store_result : ℕ → S → Option ℕ × S
  pub next_result : ℕ → S → ℤ × S
  pub free_result : ℕ → S → S
  pub commit : ℕ → S → S
  pub close : ℕ → S → S

module _ {S : Type 0} (client : Client S) where
  -- The handle of mysql_init is returned where mysql_real_connect accepts it, and forgotten elsewhere.
  unfoldable pub open_db : Login → S → Option ℕ × S
  open_db login s =
      let made = client.init s in
      elim made.0 [
        | none ↦ (none, made.1)
        | some handle ↦
            let answer = client.real_connect handle login made.1 in
            (if answer.0 then some handle else none, answer.1)
      ]

  unfoldable pub close_db : Option ℕ → S → ℤ × S
  close_db none s = (pos 0, s)
  close_db (some handle) s = (pos 0, client.close handle (client.commit handle s))

  -- `res` is the caller's variable, which is written only where the query succeeds.
  unfoldable pub mysql_query_get_res : Option ℕ → Text → Option ℕ → S → (ℤ × Option ℕ) × S
  mysql_query_get_res none sql res s = ((negsuc 0, res), s)
  mysql_query_get_res (some handle) sql res s =
      let asked = client.query handle sql s in
      if eqb_ℤ asked.0 (pos 0)
      then (let stored = client.store_result handle asked.1 in ((pos 0, stored.0), stored.1))
      else ((negsuc 0, res), client.rollback handle asked.1)

  unfoldable pub free_if_there : Option ℕ → S → S
  free_if_there none s = s
  free_if_there (some res) s = client.free_result res s

  -- while (!mysql_next_result(DB)). `none`: the fuel has run out.
  unfoldable pub free_next_results : ℕ → ℕ → S → Option S
  unfolding free_if_there
  free_next_results zero handle s = none
  free_next_results (suc fuel) handle s =
      let next = client.next_result handle s in
      let stored = client.store_result handle next.1 in
      let rest = free_next_results fuel handle (free_if_there stored.0 stored.1) in
      if eqb_ℤ next.0 (pos 0) then rest else some next.1

  abbrev pub returned : Option S → Option (ℤ × S)
  returned none = none
  returned (some s) = some (pos 0, s)

  unfoldable pub mysql_query_free_res : ℕ → Option ℕ → Option ℕ → S → Option (ℤ × S)
  unfolding free_next_results
  mysql_query_free_res fuel none res s = some (negsuc 0, s)
  mysql_query_free_res fuel (some handle) res s =
      returned (free_next_results fuel handle (free_if_there res s))
