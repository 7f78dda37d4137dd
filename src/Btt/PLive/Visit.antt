-- ===== src/Btt/PLive/Visit.antt =====
-- What p_live_visit counts.
use blktrace.Common.{
  ℕ, ◌+◌, ◌%◌, ◌^◌, ◌≡◌, ◌<◌, refl, ap, ◌∙◌, sym, max, sub64, List, [], ◌∷◌, ◌++◌, length, arith,
}
use blktrace.Parse.RbTree.{Tree, null, node, to_list}
use blktrace.Btt.PLive.{PLive, GetInfo, visit_here, p_live_visit, p_live_get}

-- The visits of the entries of a list, one after the other
visits : List PLive → GetInfo → GetInfo
visits [] gip = gip
visits (x ∷ l) gip = visits l (visit_here x gip)

visits-append : (l r : List PLive) (gip : GetInfo) → visits (l ++ r) gip ≡ visits r (visits l gip)
unfolding visits
visits-append [] r gip = refl
visits-append (x ∷ l) r gip = visits-append l r (visit_here x gip)

p_live_visit-visits : (t : Tree PLive) (gip : GetInfo) → p_live_visit t gip ≡ visits (to_list t) gip
unfolding p_live_visit visits to_list
p_live_visit-visits null gip = refl
p_live_visit-visits (node l x r) gip =
    p_live_visit-visits r (visit_here x (p_live_visit l gip))
    ∙ (ap (λ g. visits (to_list r) (visit_here x g)) (p_live_visit-visits l gip)
        ∙ sym (visits-append (to_list l) (x ∷ to_list r) gip))

-- The lengths of the intervals, and the latest end, from given values on
unfoldable pub live_time : List PLive → ℕ
live_time [] = 0
live_time (x ∷ l) = sub64 x.ct x.dt + live_time l

unfoldable pub latest : List PLive → ℕ
latest [] = 0
latest (x ∷ l) = max x.ct (latest l)

-- What is counted in a list, from `gip` on
record Counted (l : List PLive) (gip out : GetInfo) : Type 0 where
  lives : out.nlives ≡ (gip.nlives + length l) % 2 ^ 64
  live : out.tot_live ≡ (gip.tot_live + live_time l) % 2 ^ 64
  from : out.t_start ≡ 0
  to : out.t_end ≡ max gip.t_end (latest l)

visits-Counted :
    (l : List PLive) (gip : GetInfo)
    → gip.nlives < 2 ^ 64
    → gip.tot_live < 2 ^ 64
    → gip.t_start ≡ 0
    → Counted l gip (visits l gip)
unfolding visits visit_here live_time latest
visits-Counted [] gip h k z = record {
  lives = omega (arith, h);
  live = omega (arith, k);
  from = z;
  to = omega arith;
}
visits-Counted (x ∷ l) gip h k z =
    let start_zero : (visit_here x gip).t_start ≡ 0 = ground (arith, z) in
    let end_max : (visit_here x gip).t_end ≡ max gip.t_end x.ct = ground arith in
    let rest = visits-Counted l (visit_here x gip) (omega arith) (omega arith) start_zero in
    record {
      lives = omega (arith, rest.lives);
      live = omega (arith, rest.live);
      from = rest.from;
      to = omega (arith, rest.to, end_max);
    }

-- The visit counts all entries and adds up the lengths of their intervals, modulo 2 ^ 64, and finds the
-- latest end; but the start stays 0, whatever the entries are.
pub p_live_get-totals :
    (root : Tree PLive)
    → (p_live_get root).nlives ≡ length (to_list root) % 2 ^ 64
      × (p_live_get root).tot_live ≡ live_time (to_list root) % 2 ^ 64
      × (p_live_get root).t_start ≡ 0
      × (p_live_get root).t_end ≡ latest (to_list root)
unfolding p_live_get
p_live_get-totals root =
    let zeros : GetInfo = record { nlives = 0; tot_live = 0; t_start = 0; t_end = 0 } in
    let e = p_live_visit-visits root zeros in
    let c = visits-Counted (to_list root) zeros (omega arith) (omega arith) refl in
    (
      omega (arith, ap (λ g. g.nlives) e, c.lives),
      omega (arith, ap (λ g. g.tot_live) e, c.live),
      omega (arith, ap (λ g. g.t_start) e, c.from),
      omega (arith, ap (λ g. g.t_end) e, c.to),
    )
