-- ===== src/Ingest/Jobs.antt =====
-- server/internal/ingest/jobs.go: the scan jobs, one for each storage. The goroutine of a job is
-- seen by the calls it makes, `setProcessed` and at its end `finish`.
use file_tag_system.Prelude.{
  ℕ, Bool, true, false, ◌==◌, ◌≡◌, ◌⊎◌, inl, inr, refl, sym, ap, ◌∙◌, subst, Option, none, some,
  if◌then◌else◌, Bool-cases, ==_iff,
}
use file_tag_system.Text.{Text}
use file_tag_system.Result.{Result, ok, err, busy, ok_injective}

-- `State` and `Phase`, which the code sets together.
pub data State : Type 0 where
  scanning done failed cancelled : State

-- `job`; `is_cancelled` is the state of its context.
pub record Job : Type 0 where
  pub state : State
  pub processed : ℕ
  pub error : Option Text
  pub started_at : ℕ
  pub is_cancelled : Bool

abbrev pub JobManager : Type 0
JobManager = ℕ → Option Job

is_scanning : State → Bool
is_scanning scanning = true
is_scanning done = false
is_scanning failed = false
is_scanning cancelled = false

unfoldable pub is_running : Option Job → Bool
unfolding is_scanning
is_running none = false
is_running (some j) = is_scanning j.state

abbrev pub put : ℕ → Option Job → JobManager → JobManager
put sid j m s = if s == sid then j else m s

-- `Start`, up to the goroutine it starts.
unfoldable pub start : JobManager → ℕ → ℕ → Result JobManager
unfolding is_running
start m sid now =
    if is_running (m sid)
    then err busy
    else ok (
        put sid
          (some record {
            state = scanning;
            processed = 0;
            error = none;
            started_at = now;
            is_cancelled = false;
          })
          m)

abbrev pub change : (Job → Job) → Option Job → Option Job
change f none = none
change f (some j) = some (f j)

-- `setProcessed`
unfoldable pub set_processed : JobManager → ℕ → ℕ → JobManager
set_processed m sid n = put sid (change (λ j. record j { processed = n }) (m sid)) m

-- The `switch` of `finish`: the context of the job, and the error of its run.
finished : ℕ → Option Text → Job → Job
finished n e j = if j.is_cancelled then record j { processed = n; state = cancelled } else elim e [
  | some t ↦ record j { processed = n; state = failed; error = some t }
  | none ↦ record j { processed = n; state = done }
]

-- `finish`
unfoldable pub finish_job : JobManager → ℕ → ℕ → Option Text → JobManager
unfolding finished
finish_job m sid n e = put sid (change (finished n e) (m sid)) m

-- `Cancel`
unfoldable pub cancel : JobManager → ℕ → Bool × JobManager
unfolding is_running
cancel m sid =
    if is_running (m sid)
    then (true, put sid (change (λ j. record j { is_cancelled = true }) (m sid)) m)
    else (false, m)

-- What may happen to the manager, in any order.
pub data Step (m : JobManager) : JobManager → Type 0 where
  starts : (sid now : ℕ) (m' : JobManager) → start m sid now ≡ ok m' → Step m m'
  progresses : (sid n : ℕ) (m' : JobManager) → set_processed m sid n ≡ m' → Step m m'
  cancels : (sid : ℕ) (m' : JobManager) → (cancel m sid).1 ≡ m' → Step m m'
  finishes : (sid n : ℕ) (e : Option Text) (m' : JobManager) → finish_job m sid n e ≡ m' → Step m m'

-- The job that a scan has one step later: it still runs and a request to cancel it stays, or this
-- was its end, which leaves it cancelled if that was requested.
abbrev pub Goes : JobManager → JobManager → ℕ → Job → Type 0
Goes m m' sid j =
    (j' : Job) × (m' sid ≡ some j')
    × (((j'.state ≡ scanning) × (j.is_cancelled ≡ true → j'.is_cancelled ≡ true))
        ⊎ ((j.is_cancelled ≡ true → j'.state ≡ cancelled)
            × (n : ℕ) × (e : Option Text) × (m' ≡ finish_job m sid n e)))

put-other : (m : JobManager) (sid s : ℕ) (o : Option Job) → (s == sid) ≡ false → put sid o m s ≡ m s
put-other m sid s o n = rw n refl

put_self : (m : JobManager) (sid s : ℕ) (o : Option Job) → (s == sid) ≡ true → put sid o m s ≡ o
put_self m sid s o y = rw y refl

-- A start that is not refused changes the entry of its storage only.
started :
    (m m' : JobManager) (s n : ℕ)
    → start m s n ≡ ok m'
    → is_running (m s) ≡ false
    → (o : Option Job) × (m' ≡ put s o m)
unfolding start
started m m' s n e off = (_, sym (ok_injective (rw off at e)))

-- Whatever happens to the manager, a scan that runs goes on until its own end, and a second one for
-- its storage is refused.
pub running-Goes :
    (m m' : JobManager) (sid now : ℕ) (j : Job)
    → m sid ≡ some j
    → j.state ≡ scanning
    → Step m m'
    → Goes m m' sid j × (start m sid now ≡ err busy)
running-Goes m m' sid now j at runs step = (goes step, refused)
  where
    running : is_running (m sid) ≡ true
    running = unfold is_running in rw (at, runs)

    refused : start m sid now ≡ err busy
    refused = unfold start in rw running

    stays : m' sid ≡ m sid → Goes m m' sid j
    stays e = (j, e ∙ at, inl (runs, λ h. h))

    at_key : (s : ℕ) → (sid == s) ≡ true → m s ≡ some j
    at_key s y = ap m (sym ((==_iff sid s).0 y)) ∙ at

    -- A change of the entry of a storage, seen at `sid`.
    after_put :
        (s : ℕ) (f : Job → Job)
        → put s (change f (m s)) m ≡ m'
        → ((sid == s) ≡ true → m' sid ≡ some (f j) → Goes m m' sid j)
        → Goes m m' sid j
    after_put s f e here = elim (Bool-cases (sid == s)) [
      | inl y ↦ here y (
          ap (λ k. k sid) (sym e)
          ∙ put_self m s sid (change f (m s)) y
          ∙ ap (change f) (at_key s y))
      | inr n ↦ stays (ap (λ k. k sid) (sym e) ∙ put-other m s sid (change f (m s)) n)
    ]

    not_both : {x : JobManager} → err busy ≡ ok x → ⊥
    not_both e = cc

    after_start : (s n : ℕ) → start m s n ≡ ok m' → Goes m m' sid j
    after_start s n e = elim (Bool-cases (is_running (m s))) [
      | inl y ↦ absurd (not_both {x = m'} (unfold start in rw y at e))
      | inr off ↦ elim (Bool-cases (sid == s)) [
        | inl y ↦
            absurd (cc (subst (λ k. is_running (m k) ≡ true) ((==_iff sid s).0 y) running, off))
        | inr n' ↦
            let (o, made) = started m m' s n e off in
            stays (ap (λ k. k sid) made ∙ put-other m s sid o n')
      ]
    ]

    after_cancel : (s : ℕ) → (cancel m s).1 ≡ m' → Goes m m' sid j
    after_cancel s e = elim (Bool-cases (is_running (m s))) [
      | inl y ↦
          after_put s (λ k. record k { is_cancelled = true })
            (ap (λ p. p.1) (sym (cancelled_at y)) ∙ e)
            (λ z p. (record j { is_cancelled = true }, p, inl (runs, λ h. refl)))
      | inr off ↦ stays (ap (λ k. k sid) (sym e ∙ ap (λ p. p.1) (refused_at off)))
    ]
      where
        cancelled_at :
            is_running (m s) ≡ true
            → cancel m s ≡ (true, put s (change (λ k. record k { is_cancelled = true }) (m s)) m)
        cancelled_at y = unfold cancel in rw y

        refused_at : is_running (m s) ≡ false → cancel m s ≡ (false, m)
        refused_at off = unfold cancel in rw off

    goes : Step m m' → Goes m m' sid j
    goes (starts s n mm e) = after_start s n e
    goes (progresses s n mm e) =
        after_put s (λ k. record k { processed = n }) (unfold set_processed in e)
          (λ y p. (record j { processed = n }, p, inl (runs, λ h. h)))
    goes (cancels s mm e) = after_cancel s e
    goes (finishes s n fault mm e) = after_put s (finished n fault) (unfold finish_job in e) (λ y p.
        (
          finished n fault j,
          p,
          inr (
            (λ h. unfold finished in rw h refl),
            n,
            fault,
            sym (subst (λ k. finish_job m k n fault ≡ m') (sym ((==_iff sid s).0 y)) e),
          ),
        ))
