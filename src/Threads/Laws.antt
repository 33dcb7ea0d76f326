-- ===== src/Threads/Laws.antt =====
-- Which threads are started and which are joined (monitor.c, servers.c).
use mathlib.Core.Path.{fun_ext}
use mmdd_pro.Common.{
  ==_iff, ℕ, zero, suc, ◌+◌, ◌≡◌, refl, ap, subst, ◌∙◌, inl, inr, ◌&&◌, ◌||◌, List, [], ◌∷◌, Option,
  none, some, arith, ltb, leb, ◌==◌, if◌then◌else◌, Bool-cases,
}
use mmdd_pro.Pipeline.State.{ServerGroup}
use mmdd_pro.Config.{ok}
use mmdd_pro.Config.Groups.{GroupInfo}
use mmdd_pro.Threads.{
  Threads, none_started, one_more, handles, create_uploads, server_upload_handle_pthread_start,
  start_each, start_servers, start_group, start_groups, monitor_handle_pthread_start,
}

-- How often server `i` is named.
abbrev pub mentions : ℕ → List (Option ℕ) → ℕ
mentions i [] = 0
mentions i (none ∷ rs) = mentions i rs
mentions i (some j ∷ rs) = (if j == i then 1 else 0) + mentions i rs

pub mentions_cons :
    (i : ℕ) (r : Option ℕ) (rs : List (Option ℕ))
    → mentions i (r ∷ []) + mentions i rs ≡ mentions i (r ∷ rs)
mentions_cons i none rs = omega arith
mentions_cons i (some j) rs = omega arith

-- How often it is named by server groups.
abbrev pub group_mentions : ℕ → List ServerGroup → ℕ
group_mentions i [] = 0
group_mentions i (node ∷ nodes) = mentions i (handles node) + group_mentions i nodes

-- How often it is named by the monitor groups that are enabled.
abbrev pub references : ℕ → List GroupInfo → ℕ
references i [] = 0
references i (G ∷ Gs) =
    (if G.enable then group_mentions i G.group.server_group_list else 0) + references i Gs

-- 1 if the g-th of the groups that are numbered from `i` on is enabled.
abbrev pub enabled_at : ℕ → List GroupInfo → ℕ → ℕ
enabled_at i [] g = 0
enabled_at i (G ∷ Gs) g = (if G.enable && i == g then 1 else 0) + enabled_at (suc i) Gs g

create_uploads-monitors :
    (i x left : ℕ) (t : Threads) → (create_uploads i x left t).monitors ≡ t.monitors
unfolding create_uploads
create_uploads-monitors i x zero t = refl
create_uploads-monitors i x (suc left) t = create_uploads-monitors i (suc x) left _

create_uploads-sches : (i x left : ℕ) (t : Threads) → (create_uploads i x left t).sches ≡ t.sches
unfolding create_uploads
create_uploads-sches i x zero t = refl
create_uploads-sches i x (suc left) t = create_uploads-sches i (suc x) left _

create_uploads-uploads :
    (i x left : ℕ) (t : Threads) (j y : ℕ)
    → (create_uploads i x left t).uploads j y
      ≡ t.uploads j y + (if i == j && leb x y && ltb y (x + left) then 1 else 0)
unfolding create_uploads
create_uploads-uploads i x zero t j y = ground arith
create_uploads-uploads i x (suc left) t j y =
    create_uploads-uploads i (suc x) left _ j y ∙ ground (arith, ap (λ k. t.uploads k y))

module _ (num : ℕ → ℕ) where
  -- The threads of the servers whose `make_citations` is set run once each, and no others.
  abbrev pub Once : Threads → Type 0
  Once t = (i x : ℕ) → t.uploads i x ≡ (if t.cited i && ltb x (num i) then 1 else 0)

  -- `t'` has the threads of `t`, and once each those of every server that is named.
  pub record Extends (named : ℕ → ℕ) (t t' : Threads) : Type 0 where
    pub once : Once t'
    pub cited : (i : ℕ) → t'.cited i ≡ (t.cited i || ltb 0 (named i))
    pub monitors : t'.monitors ≡ t.monitors
    pub sches : t'.sches ≡ t.sches

  Extends-refl : (t : Threads) → Once t → Extends (λ i. 0) t t
  Extends-refl t h = record { once = h; cited = λ i. ground arith; monitors = refl; sches = refl }

  Extends-trans :
      (c d : ℕ → ℕ) {t u v : Threads} → Extends c t u → Extends d u v → Extends (λ i. c i + d i) t v
  Extends-trans c d e f = record {
    once = f.once;
    cited = λ i. ground (arith, e.cited i, f.cited i);
    monitors = f.monitors ∙ e.monitors;
    sches = f.sches ∙ e.sches;
  }

  server_start-Extends :
      (r : Option ℕ) (t : Threads)
      → Once t
      → Extends (λ i. mentions i (r ∷ [])) t (server_upload_handle_pthread_start num r t)
  unfolding server_upload_handle_pthread_start
  server_start-Extends none t h = Extends-refl t h
  server_start-Extends (some k) t h = elim (Bool-cases (t.cited k)) [
    | inl old ↦
        rw (old, server_upload_handle_pthread_start)
          (record {
            once = h;
            cited = λ i. elim (Bool-cases (k == i)) [
              | inl same ↦ ground (arith, old, same, ap t.cited ((==_iff k i).0 same))
              | inr other ↦ ground (arith, other)
            ];
            monitors = refl;
            sches = refl;
          })
    | inr new ↦
        rw (new, server_upload_handle_pthread_start)
          (record {
            once = λ i x.
                let made = create_uploads-uploads k 0 (num k) t i x in
                elim (Bool-cases (k == i)) [
                  | inl same ↦
                      let e = (==_iff k i).0 same in
                      ground (arith, made, h i x, new, same, ap t.cited e, ap num e)
                  | inr other ↦ ground (arith, made, h i x, other)
                ];
            cited = λ i. ground arith;
            monitors = create_uploads-monitors k 0 (num k) t;
            sches = create_uploads-sches k 0 (num k) t;
          })
  ]

  start_each-Extends :
      (rs : List (Option ℕ)) (t : Threads)
      → Once t
      → Extends (λ i. mentions i rs) t (start_each num rs t)
  unfolding start_each
  start_each-Extends [] t h = Extends-refl t h
  start_each-Extends (r ∷ rs) t h =
      let first = server_start-Extends r t h in
      subst (λ c. Extends c t (start_each num (r ∷ rs) t)) (fun_ext (λ i. mentions_cons i r rs))
        (Extends-trans _ _ first (start_each-Extends rs _ first.once))

  pub start_servers-Extends :
      (nodes : List ServerGroup) (t : Threads)
      → Once t
      → Extends (λ i. group_mentions i nodes) t (start_servers num nodes t)
  unfolding start_servers
  start_servers-Extends [] t h = Extends-refl t h
  start_servers-Extends (node ∷ nodes) t h =
      let first = start_each-Extends (handles node) t h in
      Extends-trans _ _ first (start_servers-Extends nodes _ first.once)

  -- `t'` has besides the threads of `t` those of `ms` monitor groups.
  record Grows (named ms : ℕ → ℕ) (t t' : Threads) : Type 0 where
    once : Once t'
    cited : (i : ℕ) → t'.cited i ≡ (t.cited i || ltb 0 (named i))
    monitors : (g : ℕ) → t'.monitors g ≡ t.monitors g + ms g
    sches : (g : ℕ) → t'.sches g ≡ t.sches g + ms g

  start_group-Grows :
      (i : ℕ) (G : GroupInfo) (t : Threads)
      → Once t
      → Grows
          (λ j. if G.enable then group_mentions j G.group.server_group_list else 0)
          (λ g. if G.enable && i == g then 1 else 0)
          t
          (start_group num i G t)
  unfolding start_group
  start_group-Grows i G t h = elim (Bool-cases G.enable) [
    | inr off ↦ simp (off) (record {
      once = h;
      cited = λ j. ground arith;
      monitors = λ g. omega arith;
      sches = λ g. omega arith;
    })
    | inl on ↦
        let begun = record t { monitors = one_more t.monitors i; sches = one_more t.sches i } in
        let grown = start_servers-Extends G.group.server_group_list begun h in
        simp (on) (record {
          once = grown.once;
          cited = grown.cited;
          monitors = λ g. ap (λ f. f g) grown.monitors ∙ ground arith;
          sches = λ g. ap (λ f. f g) grown.sches ∙ ground arith;
        })
  ]

  start_groups-Grows :
      (i : ℕ) (Gs : List GroupInfo) (t : Threads)
      → Once t
      → Grows (λ j. references j Gs) (enabled_at i Gs) t (start_groups num i Gs t)
  unfolding start_groups
  start_groups-Grows i [] t h = record {
    once = h;
    cited = λ j. ground arith;
    monitors = λ g. omega arith;
    sches = λ g. omega arith;
  }
  start_groups-Grows i (G ∷ Gs) t h =
      let a = start_group-Grows i G t h in
      let b = start_groups-Grows (suc i) Gs _ a.once in
      record {
        once = b.once;
        cited = λ j. ground (arith, a.cited j, b.cited j);
        monitors = λ g. omega (arith, a.monitors g, b.monitors g);
        sches = λ g. omega (arith, a.sches g, b.sches g);
      }

  -- If any group is enabled, then for every group that is, a monitor thread and a scheduler are
  -- started once, for every server that an enabled group names, as a primary or a backup server and
  -- however often, its `thread_num` threads are started once, and no other thread is started.
  pub monitor_handle_pthread_start_lem :
      (Gs : List GroupInfo) {t : Threads}
      → monitor_handle_pthread_start num Gs none_started ≡ ok t
      → ((i x : ℕ) → t.uploads i x ≡ (if ltb 0 (references i Gs) && ltb x (num i) then 1 else 0))
        × ((g : ℕ) → t.monitors g ≡ enabled_at 0 Gs g)
        × ((g : ℕ) → t.sches g ≡ enabled_at 0 Gs g)
  unfolding monitor_handle_pthread_start
  monitor_handle_pthread_start_lem Gs {t} e =
      let grown = start_groups-Grows 0 Gs none_started (λ i x. refl) in
      let same : start_groups num 0 Gs none_started ≡ t = ground (arith, e) in
      subst
        (λ u.
          ((i x : ℕ) → u.uploads i x ≡ (if ltb 0 (references i Gs) && ltb x (num i) then 1 else 0))
          × ((g : ℕ) → u.monitors g ≡ enabled_at 0 Gs g)
          × ((g : ℕ) → u.sches g ≡ enabled_at 0 Gs g))
        same
        (
          λ i x. ground (arith, grown.once i x, grown.cited i),
          λ g. omega (arith, grown.monitors g),
          λ g. omega (arith, grown.sches g),
        )
