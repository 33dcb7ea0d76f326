-- ===== src/Threads/Joins.antt =====
-- When all threads can be joined (monitor.c, servers.c).
use mmdd_pro.Common.{
  ==_iff, ℕ, suc, ◌+◌, ◌≤◌, ◌≡◌, refl, ap, inl, inr, ◌&&◌, List, [], ◌∷◌, Option, none, some, arith,
  ltb, ◌==◌, if◌then◌else◌, Bool-cases,
}
use mmdd_pro.Pipeline.State.{ServerGroup}
use mmdd_pro.Config.{ok}
use mmdd_pro.Config.Groups.{GroupInfo}
use mmdd_pro.Threads.{
  Threads, none_started, handles, and_join, join_monitor, monitor_handle_pthread_start,
  server_upload_handle_pthread_end, join_each, join_servers, join_group, join_groups,
  monitor_handle_pthread_end,
}
use mmdd_pro.Threads.Laws.{
  mentions, mentions_cons, group_mentions, references, enabled_at, monitor_handle_pthread_start_lem,
}
use mmdd_pro.Threads.Places.{
  Joins, no_places, no_groups, from_to, Joins-and, Joins-eq, join_uploads-Joins, join_monitor-Joins,
}

module _ (num : ℕ → ℕ) where
  -- The places of the servers that are named, as often.
  abbrev places : (ℕ → ℕ) → ℕ → ℕ → ℕ
  places named i x = if ltb x (num i) then named i else 0

  server_end-Joins :
      (r : Option ℕ) (t : Threads)
      → Joins
          (places (λ i. mentions i (r ∷ [])))
          no_groups
          t
          (server_upload_handle_pthread_end num r t)
  unfolding server_upload_handle_pthread_end
  server_end-Joins none t = record {
    uploads = λ i x. ground arith;
    monitors = λ g. omega arith;
    sches = λ g. omega arith;
  }
  server_end-Joins (some k) t =
      Joins-eq (from_to k 0 (num k)) (places (λ i. mentions i (some k ∷ []))) no_groups no_groups t
        _
        (λ j y. elim (Bool-cases (k == j)) [
          | inl same ↦ ground (arith, same, ap num ((==_iff k j).0 same))
          | inr other ↦ ground (arith, other)
        ])
        (λ g. refl) (join_uploads-Joins k 0 (num k) t)

  places-Joins :
      (c d e : ℕ → ℕ) (t : Threads) (r : Option Threads) (k : Threads → Option Threads)
      → ((i : ℕ) → c i + d i ≡ e i)
      → Joins (places c) no_groups t r
      → ((u : Threads) → Joins (places d) no_groups u (k u))
      → Joins (places e) no_groups t (and_join r k)
  places-Joins c d e t r k sums a b =
      Joins-eq (λ i x. places c i x + places d i x) (places e) (λ g. 0 + 0) no_groups t _
        (λ i x. ground (arith, sums i)) (λ g. omega arith)
        (Joins-and (places c) (places d) no_groups no_groups t r k a b)

  join_each-Joins :
      (rs : List (Option ℕ)) (t : Threads)
      → Joins (places (λ i. mentions i rs)) no_groups t (join_each num rs t)
  unfolding join_each
  join_each-Joins [] t = record {
    uploads = λ i x. ground arith;
    monitors = λ g. omega arith;
    sches = λ g. omega arith;
  }
  join_each-Joins (r ∷ rs) t =
      places-Joins (λ i. mentions i (r ∷ [])) (λ i. mentions i rs) (λ i. mentions i (r ∷ rs)) t _
        (join_each num rs) (λ i. mentions_cons i r rs) (server_end-Joins r t)
        (λ u. join_each-Joins rs u)

  join_servers-Joins :
      (nodes : List ServerGroup) (t : Threads)
      → Joins (places (λ i. group_mentions i nodes)) no_groups t (join_servers num nodes t)
  unfolding join_servers
  join_servers-Joins [] t = record {
    uploads = λ i x. ground arith;
    monitors = λ g. omega arith;
    sches = λ g. omega arith;
  }
  join_servers-Joins (node ∷ nodes) t =
      places-Joins (λ i. mentions i (handles node)) (λ i. group_mentions i nodes)
        (λ i. group_mentions i (node ∷ nodes)) t _ (join_servers num nodes) (λ i. refl)
        (join_each-Joins (handles node) t) (λ u. join_servers-Joins nodes u)

  join_group-Joins :
      (i : ℕ) (G : GroupInfo) (t : Threads)
      → Joins
          (places (λ j. if G.enable then group_mentions j G.group.server_group_list else 0))
          (λ g. if G.enable && i == g then 1 else 0)
          t
          (join_group num i G t)
  unfolding join_group
  join_group-Joins i G t = elim (Bool-cases G.enable) [
    | inr off ↦ simp (off) (record {
      uploads = λ j x. ground arith;
      monitors = λ g. omega arith;
      sches = λ g. omega arith;
    })
    | inl on ↦
        let nodes = G.group.server_group_list in
        simp (on) (
          Joins-eq (λ j x. 0 + places (λ k. group_mentions k nodes) j x)
            (places (λ k. group_mentions k nodes)) (λ g. (if i == g then 1 else 0) + 0)
            (λ g. if i == g then 1 else 0) t _ (λ j x. omega arith) (λ g. omega arith)
            (Joins-and no_places (places (λ k. group_mentions k nodes))
              (λ g. if i == g then 1 else 0) no_groups t (join_monitor i t) (join_servers num nodes)
              (join_monitor-Joins i t) (λ u. join_servers-Joins nodes u)))
  ]

  join_groups-Joins :
      (i : ℕ) (Gs : List GroupInfo) (t : Threads)
      → Joins (places (λ j. references j Gs)) (enabled_at i Gs) t (join_groups num i Gs t)
  unfolding join_groups
  join_groups-Joins i [] t = record {
    uploads = λ j x. ground arith;
    monitors = λ g. omega arith;
    sches = λ g. omega arith;
  }
  join_groups-Joins i (G ∷ Gs) t =
      let one : ℕ → ℕ = λ j. if G.enable then group_mentions j G.group.server_group_list else 0 in
      Joins-eq (λ j x. places one j x + places (λ k. references k Gs) j x)
        (places (λ k. references k (G ∷ Gs)))
        (λ g. (if G.enable && i == g then 1 else 0) + enabled_at (suc i) Gs g)
        (enabled_at i (G ∷ Gs)) t _ (λ j x. ground arith) (λ g. refl)
        (Joins-and (places one) (places (λ k. references k Gs))
          (λ g. if G.enable && i == g then 1 else 0) (enabled_at (suc i) Gs) t
          (join_group num i G t) (join_groups num (suc i) Gs) (join_group-Joins i G t)
          (λ u. join_groups-Joins (suc i) Gs u))

  end-start :
      (Gs : List GroupInfo) {t : Threads}
      → monitor_handle_pthread_start num Gs none_started ≡ ok t
      → (((i : ℕ) → 1 ≤ num i → references i Gs ≤ 1)
          → (t' : Threads) × (monitor_handle_pthread_end num Gs t ≡ some t')
            × ((i x : ℕ) → t'.uploads i x ≡ 0)
            × ((g : ℕ) → t'.monitors g ≡ 0)
            × ((g : ℕ) → t'.sches g ≡ 0))
        × ((i : ℕ) → 1 ≤ num i → 2 ≤ references i Gs → monitor_handle_pthread_end num Gs t ≡ none)
  unfolding monitor_handle_pthread_end
  end-start Gs {t} e =
      let (ups, mons, sches) = monitor_handle_pthread_start_lem num Gs e in
      go t ups mons sches (join_groups num 0 Gs t) (join_groups-Joins 0 Gs t)
    where
      go :
          (t : Threads)
          → ((i x : ℕ)
              → t.uploads i x ≡ (if ltb 0 (references i Gs) && ltb x (num i) then 1 else 0))
          → ((g : ℕ) → t.monitors g ≡ enabled_at 0 Gs g)
          → ((g : ℕ) → t.sches g ≡ enabled_at 0 Gs g)
          → (r : Option Threads) → Joins (places (λ j. references j Gs)) (enabled_at 0 Gs) t r
          → (((i : ℕ) → 1 ≤ num i → references i Gs ≤ 1)
              → (t' : Threads) × (r ≡ some t')
                × ((i x : ℕ) → t'.uploads i x ≡ 0)
                × ((g : ℕ) → t'.monitors g ≡ 0)
                × ((g : ℕ) → t'.sches g ≡ 0))
            × ((i : ℕ) → 1 ≤ num i → 2 ≤ references i Gs → r ≡ none)
      go t ups mons sches none j = (
        λ once. absurd (
            j (record {
              uploads = λ i x. ground (arith, ups i x, once i);
              monitors = λ g. omega (arith, mons g);
              sches = λ g. omega (arith, sches g);
            })),
        λ i some_there twice. refl,
      )
      go t ups mons sches (some t') j = (
        λ once. (
          t',
          refl,
          λ i x. ground (arith, ups i x, once i, j.uploads i x),
          λ g. omega (arith, mons g, j.monitors g),
          λ g. omega (arith, sches g, j.sches g),
        ),
        λ i some_there twice. absurd (ground (arith, ups i 0, j.uploads i 0, some_there, twice)),
      )

  -- Where every server with threads is named at most once by the enabled groups, what
  -- monitor_handle_pthread_start has started is joined by monitor_handle_pthread_end, every thread
  -- once, and none is left.
  pub monitor_handle_pthread_end-start :
      (Gs : List GroupInfo) {t : Threads}
      → monitor_handle_pthread_start num Gs none_started ≡ ok t
      → ((i : ℕ) → 1 ≤ num i → references i Gs ≤ 1)
      → (t' : Threads) × (monitor_handle_pthread_end num Gs t ≡ some t')
        × ((i x : ℕ) → t'.uploads i x ≡ 0)
        × ((g : ℕ) → t'.monitors g ≡ 0)
        × ((g : ℕ) → t'.sches g ≡ 0)
  monitor_handle_pthread_end-start Gs e once = (end-start Gs e).0 once

  -- Where the enabled groups name a server with threads twice, as a primary or a backup server, after
  -- monitor_handle_pthread_start the loop of monitor_handle_pthread_end joins a thread that has been
  -- joined already.
  pub monitor_handle_pthread_end_twice :
      (Gs : List GroupInfo) (i : ℕ) {t : Threads}
      → monitor_handle_pthread_start num Gs none_started ≡ ok t
      → 1 ≤ num i
      → 2 ≤ references i Gs
      → monitor_handle_pthread_end num Gs t ≡ none
  monitor_handle_pthread_end_twice Gs i e some_there twice = (end-start Gs e).1 i some_there twice
