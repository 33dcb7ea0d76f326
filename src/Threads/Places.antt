-- ===== src/Threads/Places.antt =====
-- What the loops that join threads need and leave (monitor.c, servers.c).
use mathlib.Core.Path.{fun_ext}
use mmdd_pro.Common.{
  ==_iff, ℕ, zero, suc, ◌+◌, ◌-◌, ◌≤◌, ◌≡◌, ap, subst, inl, inr, ◌&&◌, Option, none, some, arith,
  ltb, leb, ◌==◌, if◌then◌else◌, Bool-cases,
}
use mmdd_pro.Threads.{Threads, at_server, joined, and_join, join_monitor, join_uploads}

-- What a loop joins: `c i x` times the thread in place `x` of server `i`, and `m g` times those of
-- monitor group `g`.
pub record Enough (c : ℕ → ℕ → ℕ) (m : ℕ → ℕ) (t : Threads) : Type 0 where
  pub uploads : (i x : ℕ) → c i x ≤ t.uploads i x
  pub monitors : (g : ℕ) → m g ≤ t.monitors g
  pub sches : (g : ℕ) → m g ≤ t.sches g

pub record Shrinks (c : ℕ → ℕ → ℕ) (m : ℕ → ℕ) (t t' : Threads) : Type 0 where
  pub uploads : (i x : ℕ) → t'.uploads i x + c i x ≡ t.uploads i x
  pub monitors : (g : ℕ) → t'.monitors g + m g ≡ t.monitors g
  pub sches : (g : ℕ) → t'.sches g + m g ≡ t.sches g

-- The loop comes to its end if there are enough threads, and joins them.
abbrev pub Joins : (ℕ → ℕ → ℕ) → (ℕ → ℕ) → Threads → Option Threads → Type 0
Joins c m t none = Enough c m t → ⊥
Joins c m t (some t') = Shrinks c m t t'

abbrev pub no_places : ℕ → ℕ → ℕ
no_places i x = 0

abbrev pub no_groups : ℕ → ℕ
no_groups g = 0

pub Joins-refl : (t : Threads) → Joins no_places no_groups t (some t)
Joins-refl t = record {
  uploads = λ i x. omega arith;
  monitors = λ g. omega arith;
  sches = λ g. omega arith;
}

pub Joins-and :
    (c d : ℕ → ℕ → ℕ) (m n : ℕ → ℕ) (t : Threads) (r : Option Threads)
    (k : Threads → Option Threads)
    → Joins c m t r
    → ((u : Threads) → Joins d n u (k u))
    → Joins (λ i x. c i x + d i x) (λ g. m g + n g) t (and_join r k)
Joins-and c d m n t none k a b = λ e. a (record {
  uploads = λ i x. omega (arith, e.uploads i x);
  monitors = λ g. omega (arith, e.monitors g);
  sches = λ g. omega (arith, e.sches g);
})
Joins-and c d m n t (some u) k a b = go (k u) (b u)
  where
    go : (r : Option Threads) → Joins d n u r → Joins (λ i x. c i x + d i x) (λ g. m g + n g) t r
    go none f = λ e. f (record {
      uploads = λ i x. omega (arith, e.uploads i x, a.uploads i x);
      monitors = λ g. omega (arith, e.monitors g, a.monitors g);
      sches = λ g. omega (arith, e.sches g, a.sches g);
    })
    go (some v) f = record {
      uploads = λ i x. omega (arith, f.uploads i x, a.uploads i x);
      monitors = λ g. omega (arith, f.monitors g, a.monitors g);
      sches = λ g. omega (arith, f.sches g, a.sches g);
    }

abbrev pub from_to : ℕ → ℕ → ℕ → ℕ → ℕ → ℕ
from_to i x left j y = if i == j && leb x y && ltb y (x + left) then 1 else 0

pub Joins-eq :
    (c d : ℕ → ℕ → ℕ) (m n : ℕ → ℕ) (t : Threads) (r : Option Threads)
    → ((i x : ℕ) → c i x ≡ d i x)
    → ((g : ℕ) → m g ≡ n g)
    → Joins c m t r
    → Joins d n t r
Joins-eq c d m n t r e f j =
    subst (λ b. Joins b n t r) (fun_ext (λ i. fun_ext (e i)))
      (subst (λ b. Joins c b t r) (fun_ext f) j)

pub join_uploads-Joins :
    (i x left : ℕ) (t : Threads) → Joins (from_to i x left) no_groups t (join_uploads i x left t)
unfolding join_uploads joined
join_uploads-Joins i x zero t = record {
  uploads = λ j y. ground arith;
  monitors = λ g. omega arith;
  sches = λ g. omega arith;
}
join_uploads-Joins i x (suc left) t = elim (Bool-cases (t.uploads i x == 0)) [
  | inl gone ↦
      rw (gone, join_uploads)
        (λ (e : Enough (from_to i x (suc left)) no_groups t).
          let a = e.uploads i x in ground (arith, a, gone))
  | inr there ↦
      rw (there, join_uploads)
        (Joins-eq (λ j y. from_to i x 1 j y + from_to i (suc x) left j y) (from_to i x (suc left))
          (λ g. 0 + 0) no_groups t _ (λ j y. ground arith) (λ g. omega arith)
          (Joins-and (from_to i x 1) (from_to i (suc x) left) no_groups no_groups t
            (some (record t {
              uploads =
                  at_server i (λ y. if x == y then t.uploads i y - 1 else t.uploads i y) t.uploads;
            }))
            (join_uploads i (suc x) left)
            (record {
              uploads = λ j y. elim (Bool-cases (i == j)) [
                | inl same ↦ elim (Bool-cases (x == y)) [
                  | inl here ↦
                      let e = ap (λ k. t.uploads k y) ((==_iff i j).0 same) in
                      let f = ap (t.uploads i) ((==_iff x y).0 here) in
                      ground (arith, same, here, e, f, there)
                  | inr away ↦
                      let e = ap (λ k. t.uploads k y) ((==_iff i j).0 same) in
                      ground (arith, same, away, e)
                ]
                | inr other ↦ ground (arith, other)
              ];
              monitors = λ g. omega arith;
              sches = λ g. omega arith;
            })
            (λ u. join_uploads-Joins i (suc x) left u)))
]

pub join_monitor-Joins :
    (i : ℕ) (t : Threads) → Joins no_places (λ g. if i == g then 1 else 0) t (join_monitor i t)
unfolding join_monitor joined
join_monitor-Joins i t = elim (Bool-cases (t.monitors i == 0)) [
  | inl gone ↦
      rw (gone, join_monitor)
        (λ (e : Enough no_places (λ g. if i == g then 1 else 0) t).
          let a = e.monitors i in ground (arith, a, gone))
  | inr there ↦ elim (Bool-cases (t.sches i == 0)) [
    | inl gone ↦
        rw (there, gone, join_monitor)
          (λ (e : Enough no_places (λ g. if i == g then 1 else 0) t).
            let a = e.sches i in ground (arith, a, gone))
    | inr both ↦
        rw (there, both, join_monitor)
          (record {
            uploads = λ j x. omega arith;
            monitors = λ g. elim (Bool-cases (i == g)) [
              | inl same ↦
                  let e = ap t.monitors ((==_iff i g).0 same) in ground (arith, same, e, there)
              | inr other ↦ ground (arith, other)
            ];
            sches = λ g. elim (Bool-cases (i == g)) [
              | inl same ↦ let e = ap t.sches ((==_iff i g).0 same) in ground (arith, same, e, both)
              | inr other ↦ ground (arith, other)
            ];
          })
  ]
]
