-- ===== src/Dtree/Program/Laws.antt =====
-- What holds in every state that the program reaches.
use bookcode_linux.Common.{
  ℕ, ◌+◌, ◌≤◌, ◌≡◌, sym, ap, ◌∙◌, subst, Option, none, some, List, [], ◌∷◌, Bytes, length, Ends,
  arith,
}
use bookcode_linux.Common.Int.{ℤ, minus_one}
use bookcode_linux.Dtree.Outcome.{
  Outcome, running, exited, aborted, undefined, Returns, Returns->>=,
}
use bookcode_linux.Dtree.Cache.Unique.{
  IsUnique, mark_cache_slot_empty-IsUnique, rewrite_cached_paths-IsUnique,
}
use bookcode_linux.Dtree.Kernel.{Kernel, State}
use bookcode_linux.Dtree.Roots.{Roots, copy_root_dir_paths, zap_root_dir_path}
use bookcode_linux.Dtree.Roots.Laws.{
  live, IsCounted, Zapped, zap_root_dir_path-Zapped, zap_root_dir_path-Unique, all_live,
  copy_root_dir_paths_lem,
}
use bookcode_linux.Dtree.Watch.{reinitialize}
use bookcode_linux.Dtree.Watch.Unique.{watch_subtree-Unique, reinitialize-Unique}
use bookcode_linux.Dtree.Watch.Zap.{zap_subtree-IsUnique}
use bookcode_linux.Dtree.Watch.Frame.{watch_subtree-Rooted, reinitialize-Rooted, zap_subtree-Rooted}
use bookcode_linux.Dtree.Event.Progress.{after}
use bookcode_linux.Dtree.Stable.{Stable}
use bookcode_linux.Dtree.Reader.{Read, process_inotify_events}
use bookcode_linux.Dtree.Reader.Laws.{process_inotify_events-Ends}
use bookcode_linux.Dtree.Command.{execute_command}
use bookcode_linux.Dtree.Command.Laws.{execute_command-Left}
use bookcode_linux.Dtree.Program.{
  Options, initial_state, start, Reach, started, elsewhere, command, buffer,
}

-- What holds of every outcome holds of the one that the run has.
returned : {A : Type 0} (P : A → Type 0) (m : Outcome A) (a : A) → m ≡ running a → Returns P m → P a
returned P m a e h = subst (Returns P) e h

ended :
    {A : Type 0} (P : A → Type 0) (o : Option (Outcome A)) (a : A)
    → o ≡ some (running a)
    → Ends (Returns P) o
    → P a
ended P o a e (m, f, h) = returned P m a (ap (λ x. elim x [ none ↦ m | some y ↦ y ]) (sym f ∙ e)) h

module _ (os : Kernel) where
  open os use {World}

  abbrev pub Unique : State World → Type 0
  Unique s = IsUnique s.cache

  pub Unique-Stable : Stable os Unique
  Unique-Stable = record {
    watches = watch_subtree-Unique os;
    rebuilds = λ fd s u. reinitialize-Unique os fd s;
    zaps = zap_subtree-IsUnique os;
    zaps_root = zap_root_dir_path-Unique os;
    clears = λ j s u. mark_cache_slot_empty-IsUnique j s.cache u;
    rewrites = λ a b c d s u. rewrite_cached_paths-IsUnique a b c d s.cache u;
    moves_on = λ w s u. u;
    counts = λ a b s u. u;
    switches = λ a b c s u. u;
  }

  -- Every zapped root is counted, and a root is left.
  abbrev pub IsMonitoring : State World → Type 0
  IsMonitoring s = IsCounted s × (1 ≤ live s.roots)

  abbrev Monitored : Roots → ℕ → Type 0
  Monitored rs n = (live rs + n ≡ length rs) × (1 ≤ live rs)

  left_root :
      (p : Bytes) (s : State World) (o : Outcome (State World))
      → Zapped os p s o
      → Returns IsMonitoring o
  left_root p s (running s') (r, l, n, c, e) = (c, n)
  left_root p s (exited n) z = tt
  left_root p s aborted z = tt
  left_root p s undefined z = tt

  pub IsMonitoring-Stable : Stable os IsMonitoring
  IsMonitoring-Stable = record {
    watches = watch_subtree-Rooted os Monitored;
    rebuilds = reinitialize-Rooted os Monitored;
    zaps = zap_subtree-Rooted os Monitored;
    zaps_root =
        λ p s u. left_root p s (zap_root_dir_path os p s) (zap_root_dir_path-Zapped os p s u.0);
    clears = λ j s u. u;
    rewrites = λ a b c d s u. u;
    moves_on = λ w s u. u;
    counts = λ a b s u. u;
    switches = λ a b c s u. u;
  }

  -- An invariant that the start gives and every operation keeps holds in every reachable state.
  pub Reach-Stable :
      (P : State World → Type 0) (st : Stable os P) (o : Options) (argv : List Bytes)
      → ((w : World) → Returns (λ r. P r.1) (start os o argv w))
      → (r : ℤ × State World) → Reach os o argv r
      → P r.1
  Reach-Stable P st o argv h r (started w _ e) = returned (λ q. P q.1) (start os o argv w) r e (h w)
  Reach-Stable P st o argv h _ (elsewhere fd s w m) =
      st.moves_on w s (Reach-Stable P st o argv h (fd, s) m)
  Reach-Stable P st o argv h r (command fd s line _ m e) =
      returned (λ q. P q.1) (execute_command os line fd s) r e
        (execute_command-Left os P st line fd s (Reach-Stable P st o argv h (fd, s) m))
  Reach-Stable P st o argv h r (buffer fd s first more _ m e) =
      ended (λ q. P q.1) (process_inotify_events os fd first more s) r e
        (process_inotify_events-Ends os P st fd first more s (Reach-Stable P st o argv h (fd, s) m))

  some_live : (rs : Roots) (p : Bytes) (ps : List Bytes) → rs ≡ all_live os (p ∷ ps) → 1 ≤ live rs
  some_live rs p ps e = rw e (omega arith)

  start-Unique :
      (o : Options) (argv : List Bytes) (w : World) → Returns (λ r. Unique r.1) (start os o argv w)
  unfolding start
  start-Unique o [] w = tt
  start-Unique o (p ∷ ps) w =
      after (λ (r : ℤ × State World). Unique r.1)
        (copy_root_dir_paths os (p ∷ ps) (initial_state os o w)) (reinitialize os minus_one)
        (reinitialize-Unique os minus_one)

  start-Monitoring :
      (o : Options) (argv : List Bytes) (w : World)
      → Returns (λ r. IsMonitoring r.1) (start os o argv w)
  unfolding start
  start-Monitoring o [] w = tt
  start-Monitoring o (p ∷ ps) w =
      Returns->>= (λ (s : State World). (s.roots ≡ all_live os (p ∷ ps)) × IsCounted s)
        (λ (r : ℤ × State World). IsMonitoring r.1)
        (copy_root_dir_paths os (p ∷ ps) (initial_state os o w)) (reinitialize os minus_one)
        (copy_root_dir_paths_lem os (p ∷ ps) (initial_state os o w))
        (λ s (e, c). reinitialize-Rooted os Monitored minus_one s (c, some_live s.roots p ps e))

  -- In every state that the program reaches, by any commands, any events and any behaviour of the
  -- kernel: no watch descriptor stands in two slots of the cache, every root that was zapped has
  -- been counted, and at least one root is still monitored.
  pub Reach-Invariant :
      (o : Options) (argv : List Bytes) (fd : ℤ) (s : State World)
      → Reach os o argv (fd, s)
      → IsUnique s.cache × IsCounted s × (1 ≤ live s.roots)
  Reach-Invariant o argv fd s m =
      let k =
        Reach-Stable IsMonitoring IsMonitoring-Stable o argv (start-Monitoring o argv) (fd, s) m in
      (Reach-Stable Unique Unique-Stable o argv (start-Unique o argv) (fd, s) m, k.0, k.1)

  -- `processInotifyEvents` ends, whatever the events are, however read(2) is interrupted or fails
  -- and whatever the kernel answers: the fuel suffices. If it returns then no watch descriptor
  -- stands in two slots, provided that none did before.
  pub process_inotify_events-Unique :
      (fd : ℤ) (first : Read) (more : List Read) (s : State World)
      → IsUnique s.cache
      → Ends (Returns (λ r. IsUnique r.1.cache)) (process_inotify_events os fd first more s)
  process_inotify_events-Unique = process_inotify_events-Ends os Unique Unique-Stable
