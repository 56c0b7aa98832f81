-- ===== src/Perm/Rules.antt =====
-- What `Check` and `Effective` grant, from the meaning of `resolveAction`.
use file_tag_system.Prelude.{List, true, false, ◌≡◌, ◌≢◌, ◌↔◌, ◌⊎◌, inl, inr, refl, arith, In}
use file_tag_system.Models.{Action, read, write_meta, write_file, manage, admin, has}
use file_tag_system.Perm.{
  Row, Decision, undecided, allow, deny, more_specific, resolve_action, check, effective,
}
use file_tag_system.Perm.Walk.{Resolves, silent, denied, granted}
use file_tag_system.Perm.Walk.Resolution.{resolve_action-Resolves, Resolves-unique}

abbrev pub SameRows : List Row → List Row → Type 0
SameRows rows others = (r : Row) → In r rows ↔ In r others

Resolves-SameRows :
    (rows others : List Row) (a : Action) (d : Decision)
    → SameRows rows others
    → Resolves rows a d
    → Resolves others a d
Resolves-SameRows rows others a d same (silent h) = silent (λ r m. h r ((same r).1 m))
Resolves-SameRows rows others a d same (denied r m t n best) =
    denied r ((same r).0 m) t n (λ s k. best s ((same s).1 k))
Resolves-SameRows rows others a d same (granted r m t best clean) =
    granted r ((same r).0 m) t (λ s k. best s ((same s).1 k)) (λ s k. clean s ((same s).1 k))

resolve_action-SameRows :
    (rows others : List Row) (a : Action)
    → SameRows rows others
    → resolve_action rows a ≡ resolve_action others a
resolve_action-SameRows rows others a same =
    Resolves-unique others a _ _
      (Resolves-SameRows rows others a _ same (resolve_action-Resolves rows a))
      (resolve_action-Resolves others a)

-- The answer depends on which rows there are, not on the order or the number of times in which the
-- query returns them.
pub check-SameRows :
    (rows others : List Row) (a : Action) → SameRows rows others → check rows a ≡ check others a
unfolding check
check-SameRows rows others a same = ground (
  arith,
  resolve_action-SameRows rows others a same,
  resolve_action-SameRows rows others admin same,
)

-- An action is permitted exactly when the rows allow it, or when they leave it open, it is not
-- `admin`, and they allow `admin`.
pub check_iff :
    (rows : List Row) (a : Action)
    → (check rows a ≡ true) ↔ (
        Resolves rows a allow
        ⊎ (Resolves rows a undecided × (a ≢ admin) × Resolves rows admin allow))
check_iff rows a =
    (λ h. onward (resolve_action rows a) (resolve_action rows admin) refl refl h, back)
  where
    by_decision : (b : Action) (d : Decision) → resolve_action rows b ≡ d → Resolves rows b d
    by_decision b d e = rw (← e) (resolve_action-Resolves rows b)

    onward :
        (d e : Decision)
        → resolve_action rows a ≡ d
        → resolve_action rows admin ≡ e
        → check rows a ≡ true
        → Resolves rows a allow
          ⊎ (Resolves rows a undecided × (a ≢ admin) × Resolves rows admin allow)
    onward allow e p q h = inl (by_decision a allow p)
    onward deny e p q h = absurd (unfold check in ground arith)
    onward undecided allow p q h =
        inr (by_decision a undecided p, (unfold check in ground arith), by_decision admin allow q)
    onward undecided undecided p q h = absurd (unfold check in ground arith)
    onward undecided deny p q h = absurd (unfold check in ground arith)

    decided : (b : Action) (d : Decision) → Resolves rows b d → resolve_action rows b ≡ d
    decided b d r = Resolves-unique rows b _ d (resolve_action-Resolves rows b) r

    back :
        Resolves rows a allow
          ⊎ (Resolves rows a undecided × (a ≢ admin) × Resolves rows admin allow)
        → check rows a ≡ true
    back (inl r) = unfold check in ground (arith, decided a allow r)
    back (inr (r, n, s)) =
        unfold check in ground (arith, decided a undecided r, decided admin allow s)

-- A deny that no more specific row on the action overrides refuses it, whatever else is granted,
-- `admin` included.
pub check-deny :
    (rows : List Row) (a : Action) (r : Row)
    → In r rows
    → has r.grant a ≡ true
    → r.is_deny ≡ true
    → ((s : Row) → In s rows → has s.grant a ≡ true → more_specific s r ≡ false)
    → check rows a ≡ false
unfolding check
check-deny rows a r m t n best = ground (
  arith,
  Resolves-unique rows a (resolve_action rows a) deny (resolve_action-Resolves rows a)
      (denied r m t n best),
)

-- Nothing is permitted that no row mentions, unless a row mentions `admin`.
pub check-silent :
    (rows : List Row) (a : Action)
    → ((r : Row) → In r rows → has r.grant a ≡ false)
    → ((r : Row) → In r rows → has r.grant admin ≡ false)
    → check rows a ≡ false
unfolding check
check-silent rows a h k = ground (
  arith,
  Resolves-unique rows a (resolve_action rows a) undecided (resolve_action-Resolves rows a)
      (silent h),
  Resolves-unique rows admin (resolve_action rows admin) undecided
      (resolve_action-Resolves rows admin) (silent k),
)

-- `Effective` has exactly the actions that `Check` permits.
pub has-effective : (rows : List Row) (a : Action) → has (effective rows) a ≡ check rows a
unfolding has effective
has-effective rows read = refl
has-effective rows write_meta = refl
has-effective rows write_file = refl
has-effective rows manage = refl
has-effective rows admin = refl
