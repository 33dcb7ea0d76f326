-- ===== src/Database/Laws.antt =====
-- The result sets of a statement (utils/db.c).
use mmdd_pro.Common.{
  ℕ, zero, suc, ◌<◌, ◌≡◌, refl, sym, subst, ◌∙◌, ap, inl, inr, true, List, ◌∷◌, Option, none, some,
  arith, Text, ℤ, pos, negsuc, eqb_ℤ, Bool-cases, Option-cases,
}
use mmdd_pro.Database.{
  Client, mysql_query_get_res, free_if_there, free_next_results, returned, mysql_query_free_res,
}

-- What the manual of the library says of result sets. `live` lists the sets that have been stored
-- and not freed, and `pending` is the number of results of the statement that are still to come.
pub record Manual {S : Type 0} (client : Client S) (live : S → List ℕ) (pending : ℕ → S → ℕ)
    : Type 0 where
  pub query_live : (handle : ℕ) (sql : Text) (s : S) → live (client.query handle sql s).1 ≡ live s
  pub store_none :
      (handle : ℕ) (s : S)
      → (client.store_result handle s).0 ≡ none
      → live (client.store_result handle s).1 ≡ live s
  pub store_some :
      (handle : ℕ) (s : S) (res : ℕ)
      → (client.store_result handle s).0 ≡ some res
      → live (client.store_result handle s).1 ≡ res ∷ live s
  pub store_pending :
      (handle : ℕ) (s : S) → pending handle (client.store_result handle s).1 ≡ pending handle s
  pub free_live :
      (res : ℕ) (s : S) (others : List ℕ)
      → live s ≡ res ∷ others
      → live (client.free_result res s) ≡ others
  pub free_pending :
      (handle res : ℕ) (s : S) → pending handle (client.free_result res s) ≡ pending handle s
  pub next_live : (handle : ℕ) (s : S) → live (client.next_result handle s).1 ≡ live s
  pub next_pending :
      (handle : ℕ) (s : S)
      → eqb_ℤ (client.next_result handle s).0 (pos 0) ≡ true
      → suc (pending handle (client.next_result handle s).1) ≡ pending handle s

-- The function returns 0, with these sets still stored.
pub data Freed {S : Type 0} (live : S → List ℕ) (others : List ℕ) : Option (ℤ × S) → Type 0 where
  freed : (s : S) → live s ≡ others → Freed live others (some (pos 0, s))

data Ends {S : Type 0} (live : S → List ℕ) (others : List ℕ) : Option S → Type 0 where
  ends : (s : S) → live s ≡ others → Ends live others (some s)

module _ {S : Type 0} (client : Client S) (live : S → List ℕ) (pending : ℕ → S → ℕ)
    (manual : Manual client live pending) where
  -- Storing a result set and freeing it if it is there keeps the sets.
  store-free :
      (handle : ℕ) (s : S)
      → live
          (free_if_there client (client.store_result handle s).0 (client.store_result handle s).1)
        ≡ live s
  unfolding free_if_there
  store-free handle s = elim (Option-cases (client.store_result handle s).0) [
    | inl null ↦ rw (null, manual.store_none handle s null) refl
    | inr (res, there) ↦ rw (there) (
        manual.free_live res (client.store_result handle s).1 (live s)
          (manual.store_some handle s res there))
  ]

  free_if_there-pending :
      (handle : ℕ) (res : Option ℕ) (s : S)
      → pending handle (free_if_there client res s) ≡ pending handle s
  unfolding free_if_there
  free_if_there-pending handle none s = refl
  free_if_there-pending handle (some res) s = manual.free_pending handle res s

  free_next_results_lem :
      (fuel handle : ℕ) (s : S)
      → pending handle s < fuel
      → Ends live (live s) (free_next_results client fuel handle s)
  unfolding free_next_results
  free_next_results_lem zero handle s enough = elim enough [ ]
  free_next_results_lem (suc fuel) handle s enough =
      let next = client.next_result handle s in
      let stored = client.store_result handle next.1 in
      elim (Bool-cases (eqb_ℤ next.0 (pos 0))) [
        | inl more ↦
            rw (more, free_next_results)
              (subst
                (λ l.
                  Ends live l
                    (free_next_results client fuel handle (free_if_there client stored.0 stored.1)))
                (store-free handle next.1 ∙ manual.next_live handle s)
                (free_next_results_lem fuel handle (free_if_there client stored.0 stored.1) (
                  omega (
                    arith,
                    free_if_there-pending handle stored.0 stored.1,
                    manual.store_pending handle next.1,
                    manual.next_pending handle s more,
                  ))))
        | inr last ↦ rw (last, free_next_results) (ends next.1 (manual.next_live handle s))
      ]

  mysql_query_get_res-live :
      (handle : ℕ) (sql : Text) (s : S) {res : Option ℕ} {after : S}
      → mysql_query_get_res client (some handle) sql none s ≡ ((pos 0, res), after)
      → live (free_if_there client res after) ≡ live s
  unfolding mysql_query_get_res
  mysql_query_get_res-live handle sql s e =
      let asked = client.query handle sql s in
      let stored = client.store_result handle asked.1 in
      elim (Bool-cases (eqb_ℤ asked.0 (pos 0))) [
        | inl done ↦
            let gives : mysql_query_get_res client (some handle) sql none s
                ≡ ((pos 0, stored.0), stored.1) =
              rw (done, mysql_query_get_res) refl in
            subst (λ r. live (free_if_there client r.0.1 r.1) ≡ live s) (sym gives ∙ e)
              (store-free handle asked.1 ∙ manual.query_live handle sql s)
        | inr failed ↦
            let gives : mysql_query_get_res client (some handle) sql none s
                ≡ ((negsuc 0, none), client.rollback handle asked.1) =
              rw (failed, mysql_query_get_res) refl in
            absurd (ground (arith, ap (λ r. r.0.0) (sym gives ∙ e)))
      ]

  returned-Freed :
      {others : List ℕ} (out : Option S)
      → Ends live others out
      → Freed live others (returned client out)
  returned-Freed out (ends s kept) = freed s kept

  -- For a connection, a statement and a variable for the result set: what mysql_query_get_res stored,
  -- and every later result of the statement, is freed by mysql_query_free_res where the fuel is more
  -- than the number of results that are to come. It then returns 0, with the result sets that
  -- were stored before the statement.
  pub mysql_query_free_res-get_res :
      (fuel handle : ℕ) (sql : Text) (s : S) {res : Option ℕ} {after : S}
      → mysql_query_get_res client (some handle) sql none s ≡ ((pos 0, res), after)
      → pending handle after < fuel
      → Freed live (live s) (mysql_query_free_res client fuel (some handle) res after)
  unfolding mysql_query_get_res mysql_query_free_res
  mysql_query_free_res-get_res fuel handle sql s {res} {after} e enough =
      returned-Freed (free_next_results client fuel handle (free_if_there client res after)) (
        subst
          (λ l. Ends live l (free_next_results client fuel handle (free_if_there client res after)))
          (mysql_query_get_res-live handle sql s e)
          (free_next_results_lem fuel handle (free_if_there client res after)
            (omega (arith, free_if_there-pending handle res after))))
