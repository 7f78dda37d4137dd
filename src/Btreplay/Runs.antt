-- ===== src/Btreplay/Runs.antt =====
-- How many steps the two threads of btreplay can make, if no thread wakes from its wait with no signal
-- on the condition.
use blktrace.Common.{ℕ, suc, ◌+◌, ◌*◌, ◌≤◌, ◌<◌, ◌≡◌, subst, true, List, length, arith}
use blktrace.Btrecord.{IoBunch}
use blktrace.Btreplay.{Settings, Point, tip_init, Step, by_sub, by_rec, start, set_signal_done}
use blktrace.Btreplay.Threads.{bunches_ok, IsConsistent}
use blktrace.Btreplay.Reached.{set_signal_done-IsConsistent, Step-IsConsistent, Reach-IsConsistent}
use blktrace.Btreplay.Measure.{measure, load, Falls, replay_sub-Falls, replay_rec-Falls}

module _ (o : Settings) where
  Step-Falls :
      (file : List IoBunch) (s t : Point)
      → IsConsistent o file s
      → Step o s t
      → measure t < measure s
  Step-Falls file (sub, rec, tip) t v (by_sub e) =
      subst (Falls (measure (sub, rec, tip))) e (replay_sub-Falls o sub rec tip file v)
  Step-Falls file (sub, rec, tip) t v (by_rec n e) =
      subst (Falls (measure (sub, rec, tip))) e (replay_rec-Falls o n sub rec tip file v)

  -- A number of steps, one after the other, with SIGINT at any time, which is not counted
  pub data Run : ℕ → Point → Point → Type 0 where
    stay : {s : Point} → Run 0 s s
    go_on : {n : ℕ} {s t u : Point} → Step o s t → Run n t u → Run (suc n) s u
    signalled : {n : ℕ} {s u : Point} → Run n (set_signal_done s) u → Run n s u

  steps_few :
      (file : List IoBunch) (n : ℕ) (s t : Point)
      → IsConsistent o file s
      → Run n s t
      → n ≤ measure s
  unfolding set_signal_done
  steps_few file n s t v stay = omega arith
  steps_few file _ s u v (go_on {n} {t = t} st r) =
      omega (
        arith,
        Step-Falls file s t v st,
        steps_few file n t u (Step-IsConsistent o file s t st v) r,
      )
  steps_few file n (sub, rec, tip) u v (signalled r) =
      steps_few file n (sub, rec, record tip { signal_done = true }) u
        (set_signal_done-IsConsistent o file (sub, rec, tip) v) r

  -- Every order of the steps comes to an end: with the file's bunches as next_bunch and iocb_setup assert
  -- them, with SIGINT at any time, and with no waking of a thread that was not signalled on the
  -- condition, the two threads together make at most 20 steps for each packet, 6 for each bunch and 6
  -- more.
  pub Run-bound :
      (file : List IoBunch) (n : ℕ) (t : Point)
      → bunches_ok file ≡ true
      → Run n (tip_init o file) t
      → n ≤ 20 * load file + 6 * length file + 6
  unfolding tip_init
  Run-bound file n t ok r = omega (
    arith,
    steps_few file n (tip_init o file) t (Reach-IsConsistent o file ok (tip_init o file) start) r,
  )
