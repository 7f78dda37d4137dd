-- ===== src/Parse/Streams/Setup.antt =====
-- The two loops of do_file: the streams set up from the files of all CPUs, and then drained.
use mathlib.Core.List.{Perm}
use mathlib.Core.List.Perm
use blktrace.Common.{
  ℕ, ◌<◌, ◌≤◌, ◌≡◌, sym, Bool, some, List, [], ◌∷◌, ◌++◌, inl, inr, arith, length, append_assoc,
  append-nil, Bool-cases, subst, if◌then◌else◌, ◌==◌, ==_iff, length-Perm,
}
use blktrace.Trace.Record.{BlkIoTrace}
use blktrace.Parse.Streams.{File, Reader, MsStream, ms_sort, ms_alloc}
use blktrace.Parse.Streams.Read.{accepts, NoForeign, Refilled, ms_prime-Refilled}
use blktrace.Parse.Streams.Order.{ms_sort-Ordered, ms_sort-Each, swap_blocks, total, ms_sort-total}
use blktrace.Parse.Streams.Merge.{InTimeOrder, IsStream, IsList, drain, drain-Drained}

-- A file that setup_file opens: the place of its device in `devices`, its CPU, its records.
pub record Input : Type 0 where
  pub pdi : ℕ
  pub cpu : ℕ
  pub file : File

-- The calls of ms_alloc that the loops over devices and CPUs make.
unfoldable pub setup : ℕ → Reader → List MsStream → List Input → Reader × List MsStream
setup rb_batch r l [] = (r, l)
setup rb_batch r l (i ∷ inputs) =
    let (r', l') = ms_alloc rb_batch r i.pdi i.cpu (some i.file) l in setup rb_batch r' l' inputs

-- do_file, as far as the streams go: the traces that handle() is given, in the order of its calls.
-- The names of the files are given, no signal comes, and handle() has not stopped the loop; what it
-- does with the traces is in Handle.
unfoldable pub do_file : ℕ → ℕ → Reader → List Input → List BlkIoTrace
unfolding setup
do_file fuel rb_batch r inputs =
    let (r', l) = setup rb_batch r [] inputs in drain fuel rb_batch r' l

module _ (b : Bool) where
  -- The traces of all files that are not turned away, file after file.
  unfoldable pub contents : List Input → List BlkIoTrace
  contents [] = []
  contents (i ∷ inputs) = accepts b i.cpu i.file ++ contents inputs

  -- No file has a record of another CPU, and each is in the order of time.
  abbrev pub AllGood : List Input → Type 0
  AllGood [] = Unit {0}
  AllGood (i ∷ inputs) =
      NoForeign b i.cpu i.file × InTimeOrder (accepts b i.cpu i.file) × AllGood inputs

  module _ (rb_batch : ℕ) (pos : 0 < rb_batch) where
    record Allocated (i : Input) (l : List MsStream) (out : Reader × List MsStream) : Type 0 where
      list : IsList b out.0 out.1
      same : Perm (total b out.1) (accepts b i.cpu i.file ++ total b l)

    abbrev fresh : Input → MsStream
    fresh i = record { pdi = i.pdi; cpu = i.cpu; first = []; fd = some i.file }

    sort-Allocated :
        (i : Input) (l : List MsStream)
        → InTimeOrder (accepts b i.cpu i.file)
        → (out : Reader × MsStream × ℕ) → Refilled b rb_batch (fresh i) out
        → IsList b out.0 l
        → Allocated i l (if out.2 == 0 then (out.0, l) else (out.0, ms_sort out.1 l))
    sort-Allocated i l o out p v = elim (Bool-cases (out.2 == 0)) [
      | inl done ↦ rw done (record {
        list = v;
        same = rw (p.stuck ((==_iff out.2 0).0 done)) (Perm.refl (total b l));
      })
      | inr more ↦ rw more (record {
        list = record {
          native = v.native;
          streams =
              ms_sort-Each (IsStream b) out.1 l
                (record {
                  queued = ground (arith, p.counted);
                  own = p.own;
                  in_order = subst InTimeOrder (sym p.kept) o;
                })
                v.streams;
          ordered = ms_sort-Ordered out.1 l v.ordered;
        };
        same = rw (← p.kept) (ms_sort-total b out.1 l);
      })
    ]

    ms_alloc-Allocated :
        (r : Reader) (i : Input) (l : List MsStream)
        → NoForeign b i.cpu i.file
        → InTimeOrder (accepts b i.cpu i.file)
        → IsList b r l
        → Allocated i l (ms_alloc rb_batch r i.pdi i.cpu (some i.file) l)
    unfolding ms_alloc
    ms_alloc-Allocated r i l own o v =
        let p = ms_prime-Refilled b rb_batch r (fresh i) v.native pos own in
        sort-Allocated i l o _ p
          (record { native = p.native; streams = v.streams; ordered = v.ordered })

    record Ready (l : List MsStream) (inputs : List Input) (out : Reader × List MsStream)
        : Type 0 where
      list : IsList b out.0 out.1
      same : Perm (total b out.1) (contents inputs ++ total b l)

    setup-Ready :
        (r : Reader) (l : List MsStream) (inputs : List Input)
        → AllGood inputs
        → IsList b r l
        → Ready l inputs (setup rb_batch r l inputs)
    unfolding setup contents
    setup-Ready r l [] g v = record { list = v; same = Perm.refl _ }
    setup-Ready r l (i ∷ inputs) g v =
        let a = ms_alloc-Allocated r i l g.0 g.1 v in
        let out = ms_alloc rb_batch r i.pdi i.cpu (some i.file) l in
        let k = setup-Ready out.0 out.1 inputs g.2 a.list in
        record {
          list = k.list;
          same = Perm.trans k.same (
              Perm.trans (Perm.append_left (contents inputs) a.same) (
                rw (append_assoc (accepts b i.cpu i.file) (contents inputs) (total b l))
                  (swap_blocks b (contents inputs) (accepts b i.cpu i.file) (total b l))));
        }

    setup-nil : (r : Reader) → r.native ≡ some b → IsList b r []
    setup-nil r e = record { native = e; streams = tt; ordered = tt }

    -- The main loop of blkparse merges its input files. Let the byte order be known, rb_batch be
    -- positive, and every file hold only records of its own CPU, its good traces in time order; let
    -- no signal come, and handle() not stop the loop at the end of the stopwatch.
    -- With as much fuel as there are good traces, handle() is then given exactly the good traces of
    -- all files, each as often as it stands there, and in the order of their times; whatever the
    -- number of files, the order in which they are set up, and the size of a batch.
    pub do_file-sorted :
        (r : Reader) (inputs : List Input) (fuel : ℕ)
        → r.native ≡ some b
        → AllGood inputs
        → length (contents inputs) ≤ fuel
        → Perm (do_file fuel rb_batch r inputs) (contents inputs)
          × InTimeOrder (do_file fuel rb_batch r inputs)
    unfolding do_file total
    do_file-sorted r inputs fuel e g h =
        let k = setup-Ready r [] inputs g (setup-nil r e) in
        let same = subst (Perm _) (append-nil (contents inputs)) k.same in
        let d = drain-Drained b rb_batch pos fuel _ _ k.list (omega (arith, length-Perm same)) in
        (Perm.trans d.0 same, d.1)
