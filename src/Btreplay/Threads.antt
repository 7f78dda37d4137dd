-- ===== src/Btreplay/Threads.antt =====
-- What holds between the two threads of btreplay at every point.
use blktrace.Common.{
  subst, sym, ℕ, ◌+◌, ◌≤◌, ◌<◌, ◌≡◌, Bool, true, false, ◌&&◌, Option, none, some, List, [], ◌∷◌,
  ◌++◌, map, ◌⊎◌, ltb, leb, ◌==◌, length,
}
use blktrace.Btrecord.{IoPkt, IoBunch, bt_max_pkts}
use blktrace.Btreplay.{
  Settings, ThrInfo, Sub, at_loop, at_nfree, waiting, at_map, at_submit, at_account, sub_done,
  sub_failed, Rec, asleep, at_return, at_events, at_move, rec_done, rec_failed, Point, as_allowed,
  all_ok,
}

-- The packets of the current bunch that replay_sub has not mapped yet
abbrev pub pending : Sub → List IoPkt
pending (at_loop pkts) = pkts
pending (at_nfree pkts) = pkts
pending (waiting pkts) = pkts
pending (at_map n pkts) = pkts
pending (at_submit list pkts) = pkts
pending (at_account n pkts) = pkts
pending sub = []

-- Those that it has mapped and not submitted
abbrev pub in_hand : Sub → List IoPkt
in_hand (at_submit list pkts) = list
in_hand sub = []

-- How many iocbs are mapped, and not in naios_out
abbrev pub mapped : Sub → ℕ
mapped (at_submit list pkts) = length list
mapped (at_account n pkts) = n
mapped sub = 0

-- How many of these are submitted
abbrev pub submitted : Sub → ℕ
submitted (at_account n pkts) = n
submitted sub = 0

-- How many are done, and still in naios_out
abbrev pub moving : Rec → ℕ
moving (at_move k n) = n
moving rec = 0

abbrev pub is_done : Sub → Bool
is_done sub_done = true
is_done sub = false

-- What replay_sub knows where it is: of naios_free, send_wait, signal_done and the unread bunches
abbrev pub SubOk : ℕ → Bool → Bool → List IoBunch → Sub → Type 0
SubOk free wait signal ifd (at_nfree pkts) = 0 < length pkts
SubOk free wait signal ifd (waiting pkts) = (0 < length pkts) × (free ≡ 0) × (wait ≡ true)
SubOk free wait signal ifd (at_map n pkts) =
    (n ≤ free) × (n ≤ length pkts) × ((signal ≡ true) ⊎ (0 < n))
SubOk free wait signal ifd (at_submit list pkts) = 0 < length list
SubOk free wait signal ifd (at_account n pkts) = 0 < n
SubOk free wait signal ifd sub_done = (ifd ≡ []) ⊎ (signal ≡ true)
SubOk free wait signal ifd sub_failed = signal ≡ true
SubOk free wait signal ifd sub = Unit

-- What replay_rec knows where it is: of naios_out, reap_wait, send_done and reap_done
abbrev pub RecOk : ℕ → Bool → Bool → Bool → Rec → Type 0
RecOk out wait over ended asleep = (out ≡ 0) × (wait ≡ true)
RecOk out wait over ended (at_return k) = (0 < k) × (k ≤ out)
RecOk out wait over ended (at_events k) = (0 < k) × (k ≤ out)
RecOk out wait over ended (at_move k n) = (0 < n) × (n ≤ k) × (k ≤ out)
RecOk out wait over ended rec_done = (over ≡ true) × (out ≡ 0) × (ended ≡ true)
RecOk out wait over ended rec_failed = 0 < 0
RecOk out wait over ended rec = Unit

-- What next_bunch and process_bunch assert of a bunch
unfoldable pub bunch_ok : IoBunch → Bool
bunch_ok b = ltb 0 b.npkts && leb b.npkts bt_max_pkts && b.npkts == length b.pkts

unfoldable pub bunches_ok : List IoBunch → Bool
unfolding bunch_ok
bunches_ok [] = true
bunches_ok (b ∷ bs) = (bunch_ok b && all_ok b.pkts) && bunches_ok bs

-- The packets of the bunches, as iocbs_map would send them
unfoldable pub requests : Settings → List IoBunch → List IoPkt
unfolding as_allowed
requests o [] = []
requests o (b ∷ bs) = map (as_allowed o) b.pkts ++ requests o bs

-- The counters agree with the lists and with the kernel, both threads know what they rely on, and all
-- packets of the file are sent, in hand, or still to come, in the order of the file.
pub record Consistent (o : Settings) (file : List IoBunch) (sub : Sub) (rec : Rec) (tip : ThrInfo)
    : Type 0 where
  pub free : tip.naios_free ≡ tip.free_iocbs
  pub total : tip.naios_free + tip.naios_out + mapped sub ≡ o.naios
  pub used : tip.used_iocbs ≡ tip.naios_out + mapped sub
  pub kernel : tip.flight + moving rec ≡ tip.naios_out + submitted sub
  pub over : tip.send_done ≡ is_done sub
  pub at_sub : SubOk tip.naios_free tip.send_wait tip.signal_done tip.ifd sub
  pub at_rec : RecOk tip.naios_out tip.reap_wait tip.send_done tip.reap_done rec
  pub pending_ok : all_ok (pending sub) ≡ true
  pub file_ok : bunches_ok tip.ifd ≡ true
  pub in_order :
      tip.signal_done ≡ false
      → tip.sent ++ (in_hand sub ++ (map (as_allowed o) (pending sub) ++ requests o tip.ifd))
        ≡ requests o file

abbrev pub IsConsistent : Settings → List IoBunch → Point → Type 0
IsConsistent o file (sub, rec, tip) = Consistent o file sub rec tip

pub keep :
    (o : Settings) (file : List IoBunch) {out : Point} (sub : Sub) (rec : Rec) (tip : ThrInfo)
    → out ≡ (sub, rec, tip)
    → Consistent o file sub rec tip
    → IsConsistent o file out
keep o file sub rec tip e v = subst (IsConsistent o file) (sym e) v

-- What holds after a step, if there is one
abbrev pub After : Settings → List IoBunch → Option Point → Type 0
After o file none = Unit
After o file (some s) = IsConsistent o file s
