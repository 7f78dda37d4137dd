-- ===== src/Parse/Dump/Depth.antt =====
-- The queue depths of a device in dump_trace: cur_depth and max_depth.
use blktrace.Common.{
  max, ℕ, ◌-◌, ◌%◌, ◌^◌, ◌≡◌, refl, ◌∙◌, sym, List, [], ◌∷◌, ap, ◌≤◌, Bool, true, false, not, ◌||◌,
  if◌then◌else◌, ◌==◌, ltb, add32, arith, Bool-cases, inl, inr, ==_iff,
}
use blktrace.Trace.Record.{BlkIoTrace}
use blktrace.Trace.Header.{Native}
use blktrace.Trace.Ta
use blktrace.Parse.Account.{account_m}
use blktrace.Parse.Processes.{Hash, at_rw}
use blktrace.Parse.RbTree.{RbOps}
use blktrace.Parse.Tracks.{is_write}
use blktrace.Parse.Dump.{
  log_generic, log_insert, log_issue, log_complete, log_merge, account, tracking, log_tracked,
  process_fmt, Options, State, System, depth_down, depth_up, dump_trace_pc, dump_trace_fs,
  dump_text, dump_trace, notify, count_event, output_binary,
}

-- The two counters of one direction.
pub record Depths : Type 0 where
  pub cur : ℕ
  pub most : ℕ

abbrev pub depths : Bool → State → Depths
depths w st = record { cur = at_rw st.cur_depth w; most = at_rw st.max_depth w }

-- What a trace does to the counters of a direction.
pub data Change : Type 0 where
  up : Change
  down : Change
  same : Change

-- w == (t is a write)
abbrev pub agrees : Bool → Bool → Bool
agrees true b = b
agrees false b = not b

unfoldable pub change : Bool → BlkIoTrace → Change
unfolding is_write
change w t =
    let act = t.action % 2 ^ 16 in
    if not (agrees w (is_write t))
    then same
    else if act == Ta.issue
    then up
    else if (act == Ta.requeue) || (act == Ta.complete)
    then down
    else same

unfoldable pub apply_change : Change → Depths → Depths
apply_change up d =
    let cur = add32 d.cur 1 in record { cur = cur; most = if ltb d.most cur then cur else d.most }
apply_change down d = record d { cur = d.cur - 1 }
apply_change same d = d

depths-depth_up :
    (w v : Bool) (st : State)
    → depths w (depth_up v st) ≡ apply_change (if agrees w v then up else same) (depths w st)
unfolding depth_up apply_change
depths-depth_up true true st = ground arith
depths-depth_up true false st = ground arith
depths-depth_up false true st = ground arith
depths-depth_up false false st = ground arith

depths-depth_down :
    (w v : Bool) (st : State)
    → depths w (depth_down v st) ≡ apply_change (if agrees w v then down else same) (depths w st)
unfolding depth_down apply_change
depths-depth_down true true st = ground arith
depths-depth_down true false st = ground arith
depths-depth_down false true st = ground arith
depths-depth_down false false st = ground arith

module _ (ops : RbOps) (hash : Hash) (opts : Options) where
  depths-dump_trace_pc :
      (w : Bool) (t : BlkIoTrace) (st : State)
      → depths w (dump_trace_pc ops hash opts t st) ≡ apply_change (change w t) (depths w st)
  unfolding dump_trace_pc change apply_change depth_up depth_down
  depths-dump_trace_pc true t st = ground arith
  depths-dump_trace_pc false t st = ground arith

  depths-log_merge :
      (w : Bool) (t : BlkIoTrace) (act : List ℕ) (st : State)
      → depths w (log_merge ops hash opts t act st) ≡ depths w st
  unfolding log_merge log_generic process_fmt
  depths-log_merge w t act st = ground arith

  -- An action that is none of R, D and C
  abbrev Calm : BlkIoTrace → ℕ → Type 0
  Calm t n = ((n == Ta.issue) || (n == Ta.requeue) || (n == Ta.complete)) ≡ false

  calm :
      (w : Bool) (t : BlkIoTrace) (st : State) (n : ℕ)
      → Calm t n
      → (t.action % 2 ^ 16 == n) ≡ true
      → depths w st ≡ apply_change (change w t) (depths w st)
  unfolding change apply_change
  calm w t st n c e = ground arith

  raises :
      (w : Bool) (t : BlkIoTrace) (st : State)
      → (t.action % 2 ^ 16 == Ta.issue) ≡ true
      → apply_change (if agrees w (is_write t) then up else same) (depths w st)
        ≡ apply_change (change w t) (depths w st)
  unfolding change apply_change
  raises w t st e = ground arith

  lowers :
      (w : Bool) (t : BlkIoTrace) (st : State)
      → ((t.action % 2 ^ 16 == Ta.requeue) || (t.action % 2 ^ 16 == Ta.complete)) ≡ true
      → apply_change (if agrees w (is_write t) then down else same) (depths w st)
        ≡ apply_change (change w t) (depths w st)
  unfolding change apply_change
  lowers w t st e = ground arith

  other :
      (w : Bool) (t : BlkIoTrace) (st : State)
      → (t.action % 2 ^ 16 == Ta.requeue) ≡ false
      → (t.action % 2 ^ 16 == Ta.issue) ≡ false
      → (t.action % 2 ^ 16 == Ta.complete) ≡ false
      → depths w st ≡ apply_change (change w t) (depths w st)
  unfolding change apply_change
  other w t st n6 n7 n8 = ground arith

  depths-dump_trace_fs :
      (w : Bool) (sys : System) (t : BlkIoTrace) (st : State)
      → depths w (dump_trace_fs ops hash opts sys t st) ≡ apply_change (change w t) (depths w st)
  unfolding dump_trace_fs log_generic log_insert log_issue log_complete log_merge account tracking
      log_tracked process_fmt
  depths-dump_trace_fs w sys t st = elim (Bool-cases (t.action % 2 ^ 16 == Ta.queue)) [
    | inl e ↦
        rw ((==_iff (t.action % 2 ^ 16) Ta.queue).0 e, dump_trace_fs) (calm w t st Ta.queue refl e)
    | inr n0 ↦ elim (Bool-cases (t.action % 2 ^ 16 == Ta.insert)) [
      | inl e ↦
          rw ((==_iff (t.action % 2 ^ 16) Ta.insert).0 e, dump_trace_fs)
            (calm w t st Ta.insert refl e)
      | inr n1 ↦ elim (Bool-cases (t.action % 2 ^ 16 == Ta.backmerge)) [
        | inl e ↦
            rw ((==_iff (t.action % 2 ^ 16) Ta.backmerge).0 e, dump_trace_fs)
              (depths-log_merge w t (77 ∷ [])
                  (account ops hash opts t (λ ios. account_m ios t (is_write t)) st)
                ∙ calm w t st Ta.backmerge refl e)
        | inr n2 ↦ elim (Bool-cases (t.action % 2 ^ 16 == Ta.frontmerge)) [
          | inl e ↦
              rw ((==_iff (t.action % 2 ^ 16) Ta.frontmerge).0 e, dump_trace_fs)
                (depths-log_merge w t (70 ∷ [])
                    (account ops hash opts t (λ ios. account_m ios t (is_write t)) st)
                  ∙ calm w t st Ta.frontmerge refl e)
          | inr n3 ↦ elim (Bool-cases (t.action % 2 ^ 16 == Ta.getrq)) [
            | inl e ↦
                rw ((==_iff (t.action % 2 ^ 16) Ta.getrq).0 e, dump_trace_fs)
                  (calm w t st Ta.getrq refl e)
            | inr n4 ↦ elim (Bool-cases (t.action % 2 ^ 16 == Ta.sleeprq)) [
              | inl e ↦
                  rw ((==_iff (t.action % 2 ^ 16) Ta.sleeprq).0 e, dump_trace_fs)
                    (calm w t st Ta.sleeprq refl e)
              | inr n5 ↦ elim (Bool-cases (t.action % 2 ^ 16 == Ta.requeue)) [
                | inl e ↦
                    rw ((==_iff (t.action % 2 ^ 16) Ta.requeue).0 e, dump_trace_fs)
                      (depths-depth_down w (is_write t) st ∙ lowers w t st (ground (arith, e)))
                | inr n6 ↦ elim (Bool-cases (t.action % 2 ^ 16 == Ta.issue)) [
                  | inl e ↦
                      rw ((==_iff (t.action % 2 ^ 16) Ta.issue).0 e, dump_trace_fs)
                        (depths-depth_up w (is_write t) st ∙ raises w t st e)
                  | inr n7 ↦ elim (Bool-cases (t.action % 2 ^ 16 == Ta.complete)) [
                    | inl e ↦
                        rw ((==_iff (t.action % 2 ^ 16) Ta.complete).0 e, dump_trace_fs)
                          (depths-depth_down w (is_write t) st ∙ lowers w t st (ground (arith, e)))
                    | inr n8 ↦ elim (Bool-cases (t.action % 2 ^ 16 == Ta.plug)) [
                      | inl e ↦
                          rw ((==_iff (t.action % 2 ^ 16) Ta.plug).0 e, dump_trace_fs)
                            (calm w t st Ta.plug refl e)
                      | inr n9 ↦ elim (Bool-cases (t.action % 2 ^ 16 == Ta.unplug_io)) [
                        | inl e ↦
                            rw ((==_iff (t.action % 2 ^ 16) Ta.unplug_io).0 e, dump_trace_fs)
                              (calm w t st Ta.unplug_io refl e)
                        | inr n10 ↦ elim (Bool-cases (t.action % 2 ^ 16 == Ta.unplug_timer)) [
                          | inl e ↦
                              rw ((==_iff (t.action % 2 ^ 16) Ta.unplug_timer).0 e, dump_trace_fs)
                                (calm w t st Ta.unplug_timer refl e)
                          | inr n11 ↦ elim (Bool-cases (t.action % 2 ^ 16 == Ta.split)) [
                            | inl e ↦
                                rw ((==_iff (t.action % 2 ^ 16) Ta.split).0 e, dump_trace_fs)
                                  (calm w t st Ta.split refl e)
                            | inr n12 ↦ elim (Bool-cases (t.action % 2 ^ 16 == Ta.bounce)) [
                              | inl e ↦
                                  rw ((==_iff (t.action % 2 ^ 16) Ta.bounce).0 e, dump_trace_fs)
                                    (calm w t st Ta.bounce refl e)
                              | inr n13 ↦ elim (Bool-cases (t.action % 2 ^ 16 == Ta.remap)) [
                                | inl e ↦
                                    rw ((==_iff (t.action % 2 ^ 16) Ta.remap).0 e, dump_trace_fs)
                                      (calm w t st Ta.remap refl e)
                                | inr n14 ↦ elim (Bool-cases (t.action % 2 ^ 16 == Ta.drv_data)) [
                                  | inl e ↦
                                      rw
                                        (
                                          (==_iff (t.action % 2 ^ 16) Ta.drv_data).0 e,
                                          dump_trace_fs,
                                        )
                                        (calm w t st Ta.drv_data refl e)
                                  | inr n15 ↦
                                      rw
                                        (
                                          n0, n1, n2, n3, n4, n5, n6, n7, n8, n9, n10, n11, n12,
                                          n13, n14, n15, dump_trace_fs,
                                        )
                                        (other w t st n6 n7 n8)
                                ]
                              ]
                            ]
                          ]
                        ]
                      ]
                    ]
                  ]
                ]
              ]
            ]
          ]
        ]
      ]
    ]
  ]

  -- What the counters of a direction see of a trace, by the options
  unfoldable pub seen : Bool → BlkIoTrace → Change
  unfolding change
  seen w t = if not opts.text_output || (t.action == Ta.notify_message) then same else change w t

  depths-dump_text :
      (w : Bool) (sys : System) (native : Native) (t : BlkIoTrace) (st : State)
      → depths w (dump_text ops hash opts sys native t st) ≡ apply_change (seen w t) (depths w st)
  unfolding dump_text notify seen apply_change
  depths-dump_text w sys native t st =
      ground (arith, depths-dump_trace_pc w t st, depths-dump_trace_fs w sys t st)

  -- dump_trace raises cur_depth of a direction for an issue of that direction, lowers it, not below
  -- 0, for a requeue or a completion, and otherwise leaves both counters of the direction; a rise
  -- makes max_depth the larger of the two.
  pub depths-dump_trace :
      (w : Bool) (sys : System) (native : Native) (t : BlkIoTrace) (st : State)
      → depths w (dump_trace ops hash opts sys native t st) ≡ apply_change (seen w t) (depths w st)
  unfolding dump_trace count_event output_binary
  depths-dump_trace w sys native t st = ground (arith, depths-dump_text w sys native t st)

  -- The traces of a device, one after the other.
  unfoldable pub dump_traces : Native → List (System × BlkIoTrace) → State → State
  unfolding dump_trace
  dump_traces native [] st = st
  dump_traces native ((sys, t) ∷ ts) st =
      dump_traces native ts (dump_trace ops hash opts sys native t st)

  -- The largest depth of a direction on the way, from a depth at the start.
  unfoldable pub peak : Bool → List (System × BlkIoTrace) → ℕ → ℕ
  unfolding seen apply_change
  peak w [] cur = cur
  peak w ((sys, t) ∷ ts) cur =
      max cur (peak w ts (apply_change (seen w t) (record { cur = cur; most = cur })).cur)

  peak_above : (w : Bool) (ts : List (System × BlkIoTrace)) (cur : ℕ) → cur ≤ peak w ts cur
  unfolding peak
  peak_above w [] cur = omega arith
  peak_above w ((sys, t) ∷ ts) cur = omega arith

  after :
      (c : Change) (d : Depths)
      → d.cur ≤ d.most
      → ((apply_change c d).most ≡ max d.most (apply_change c d).cur)
        × ((apply_change c d).cur ≡ (apply_change c (record { cur = d.cur; most = d.cur })).cur)
  unfolding apply_change
  after up d h = ground arith
  after down d h = ground arith
  after same d h = ground arith

  -- max_depth at the end of any sequence of traces is the largest cur_depth that the device had on
  -- the way, if it was at least cur_depth at the start; so it is at least cur_depth at the end.
  pub dump_traces-peak :
      (w : Bool) (native : Native) (ts : List (System × BlkIoTrace)) (st : State)
      → at_rw st.cur_depth w ≤ at_rw st.max_depth w
      → at_rw (dump_traces native ts st).max_depth w
        ≡ max (at_rw st.max_depth w) (peak w ts (at_rw st.cur_depth w))
  unfolding dump_traces peak
  dump_traces-peak w native [] st h = omega arith
  dump_traces-peak w native ((sys, t) ∷ ts) st h =
      let st' = dump_trace ops hash opts sys native t st in
      let e = depths-dump_trace w sys native t st in
      let (a, b) = after (seen w t) (depths w st) h in
      let a' : at_rw st'.max_depth w ≡ max (at_rw st.max_depth w) (at_rw st'.cur_depth w) =
        ap (λ d. d.most) e ∙ a ∙ ap (λ d. max (at_rw st.max_depth w) d.cur) (sym e) in
      let b' = ap (λ d. d.cur) e ∙ b in
      let rest = dump_traces-peak w native ts st' (omega (arith, a')) in
      omega (arith, rest, a', h, peak_above w ts (at_rw st'.cur_depth w), ap (peak w ts) b')
