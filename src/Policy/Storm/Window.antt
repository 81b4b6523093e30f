-- ===== src/Policy/Storm/Window.antt =====
-- The guard's deque against the whole history of failures: it holds those of the window.
use mathlib.Core.List.{append_assoc, append-nil}
use service_daemon_rs.Prelude.{
  ℕ, ◌+◌, ◌≤◌, ◌≡◌, refl, ap, ◌∙◌, inl, inr, Bool, List, [], ◌∷◌, ◌++◌, map, leb, retain,
  retain-append, All, All-append, Bool-cases, arith,
}
use service_daemon_rs.Policy.Storm.{
  RestartStormConfig, RestartStormGuard, new, is_stale, prune, record_failure,
}

-- A failure counts while it is at most `window` old.
abbrev pub in_window : ℕ → ℕ → ℕ → Bool
in_window window now failure = leb now (failure + window)

-- A list of moments in order of time, none of them after `hi`.
abbrev Ascending : List ℕ → ℕ → Type 0
Ascending [] hi = Unit {0}
Ascending (t ∷ ts) hi = All (λ u. t ≤ u) ts × (t ≤ hi) × Ascending ts hi

Ascending-mono : {lo hi : ℕ} (ts : List ℕ) → lo ≤ hi → Ascending ts lo → Ascending ts hi
Ascending-mono [] h a = tt
Ascending-mono {lo = lo} {hi = hi} (t ∷ ts) h a =
    (a.0, omega arith, Ascending-mono {lo = lo} {hi = hi} ts h a.2)

All-le-snoc :
    {t now : ℕ} (ts : List ℕ) → t ≤ now → All (λ u. t ≤ u) ts → All (λ u. t ≤ u) (ts ++ now ∷ [])
All-le-snoc {t} {now} ts h a = All-append (λ u. t ≤ u) ts (now ∷ []) a (h, tt)

Ascending-snoc : (now : ℕ) (ts : List ℕ) → Ascending ts now → Ascending (ts ++ now ∷ []) now
Ascending-snoc now [] a = (tt, omega arith, tt)
Ascending-snoc now (t ∷ ts) a =
    (All-le-snoc {t = t} {now = now} ts a.1 a.0, a.1, Ascending-snoc now ts a.2)

-- All that follows a failure of the window is in the window.
retain-All :
    (w now t : ℕ) (ts : List ℕ)
    → now ≤ t + w
    → All (λ u. t ≤ u) ts
    → retain (in_window w now) ts ≡ ts
retain-All w now t [] h a = refl
retain-All w now t (u ∷ us) h a = ground (arith, retain-All w now t us h a.1)

Ascending-prune : (w now : ℕ) (ts : List ℕ) → Ascending ts now → Ascending (prune w now ts) now
unfolding prune
Ascending-prune w now [] a = tt
Ascending-prune w now (t ∷ ts) a = elim (Bool-cases (is_stale w now t)) [
  | inl e ↦ rw (e, prune) (Ascending-prune w now ts a.2)
  | inr e ↦ rw (e, prune) a
]

-- The early stop of the loop loses nothing: on ordered failures it is a filter.
pub prune-retain :
    (w now : ℕ) (ts : List ℕ) → Ascending ts now → prune w now ts ≡ retain (in_window w now) ts
unfolding prune
prune-retain w now [] a = refl
prune-retain w now (t ∷ ts) a = ground (arith, prune-retain w now ts a.2, retain-All w now t ts)

retain-retain :
    (w lo now : ℕ) (ts : List ℕ)
    → lo ≤ now
    → retain (in_window w now) (retain (in_window w lo) ts) ≡ retain (in_window w now) ts
retain-retain w lo now [] h = refl
retain-retain w lo now (t ∷ ts) h = ground (arith, retain-retain w lo now ts h)

-- Failures with their moments and policy delays, in order of time from `lo` to `hi`.
abbrev pub Rising : ℕ → List (ℕ × ℕ) → ℕ → Type 0
Rising lo [] hi = lo ≤ hi
Rising lo ((t, d) ∷ ts) hi = (lo ≤ t) × Rising t ts hi

abbrev pub moments : List (ℕ × ℕ) → List ℕ
moments = map λ p. p.0

-- `record_failure` for each failure of a history.
pub record_all : RestartStormGuard → List (ℕ × ℕ) → RestartStormGuard
record_all g [] = g
record_all g ((t, d) ∷ ts) = record_all (record_failure g t d).0 ts

-- The deque holds, in order, what the window at `last` keeps of the past.
record Tracks (g : RestartStormGuard) (w : ℕ) (past : List ℕ) (last : ℕ) : Type 0 where
  window_kept : g.config.window ≡ w
  ordered : Ascending g.failures last
  kept : g.failures ≡ retain (in_window w last) past

Tracks-prune :
    (g : RestartStormGuard) (w lo now : ℕ) (past : List ℕ)
    → Tracks g w past lo
    → lo ≤ now
    → (prune w now g.failures ≡ retain (in_window w now) past)
      × Ascending (prune w now g.failures) now
Tracks-prune g w lo now past tr h =
    let asc = Ascending-mono {lo = lo} {hi = now} g.failures h tr.ordered in
    (
      prune-retain w now g.failures asc
          ∙ ap (retain (in_window w now)) tr.kept
          ∙ retain-retain w lo now past h,
      Ascending-prune w now g.failures asc,
    )

retain-now : (w now : ℕ) → retain (in_window w now) (now ∷ []) ≡ now ∷ []
retain-now w now = ground arith

record_failure-Tracks :
    (g : RestartStormGuard) (w lo now d : ℕ) (past : List ℕ)
    → Tracks g w past lo
    → lo ≤ now
    → Tracks (record_failure g now d).0 w (past ++ now ∷ []) now
unfolding record_failure
record_failure-Tracks g w lo now d past tr h =
    let (same, asc) = Tracks-prune g w lo now past tr h in
    record {
      window_kept = tr.window_kept;
      ordered = rw tr.window_kept (Ascending-snoc now (prune w now g.failures) asc);
      kept = rw tr.window_kept (rw (same, retain-append (in_window w now) past, retain-now w now));
    }

record_all-Tracks :
    (g : RestartStormGuard) (w lo hi : ℕ) (past : List ℕ) (ts : List (ℕ × ℕ))
    → Tracks g w past lo
    → Rising lo ts hi
    → (last : ℕ) × (last ≤ hi) × Tracks (record_all g ts) w (past ++ moments ts) last
unfolding record_all
record_all-Tracks g w lo hi past [] tr r = (lo, r, rw append-nil tr)
record_all-Tracks g w lo hi past ((t, d) ∷ ts) tr r =
    let (last, le, tr') =
      record_all-Tracks (record_failure g t d).0 w t hi (past ++ t ∷ []) ts
        (record_failure-Tracks g w lo t d past tr r.0) r.1 in
    (last, le, rw append_assoc at tr')

pub record_all-config :
    (g : RestartStormGuard) (ts : List (ℕ × ℕ)) → (record_all g ts).config ≡ g.config
unfolding record_all record_failure
record_all-config g [] = refl
record_all-config g ((t, d) ∷ ts) = record_all-config (record_failure g t d).0 ts

-- What the next `prune` leaves of a history in order of time: the failures of the window.
pub record_all-prune :
    (c : RestartStormConfig) (ts : List (ℕ × ℕ)) (now : ℕ)
    → Rising 0 ts now
    → prune c.window now (record_all (new c) ts).failures
      ≡ retain (in_window c.window now) (moments ts)
unfolding new
record_all-prune c ts now r =
    let (last, le, tr) =
      record_all-Tracks (new c) c.window 0 now [] ts
        (record { window_kept = refl; ordered = tt; kept = refl }) r in
    (Tracks-prune (record_all (new c) ts) c.window last now (moments ts) tr le).0
