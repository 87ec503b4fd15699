-- ===== src/Purge/Command.antt =====
-- The command that runs both purges
-- (jwt_allauth/management/commands/jwt_allauth_purge_tokens.py) and `unknown_purposes` of
-- jwt_allauth/tokens/purge.py, less the text that it writes.
use jwt_allauth.Base.{
  ℕ, ◌+◌, ◌≡◌, refl, Bool, false, not, List, [], ◌∷◌, arith, if◌then◌else◌, length, select, delete,
  exists, count,
}
use jwt_allauth.Db.{GenericTokenModel, Db, Purpose, same_purpose}
use jwt_allauth.Purge.{Retentions, expired, report, purge_all, purge, retentions, purge_sessions}
use jwt_allauth.Settings.{Settings}

-- One more row of a purpose.
unfoldable pub tally : Purpose → Retentions → Retentions
tally purpose [] = (purpose, 1) ∷ []
tally purpose ((present, n) ∷ d) =
    if same_purpose purpose present then (present, n + 1) ∷ d else (present, n) ∷ tally purpose d

unfoldable pub tallies : List GenericTokenModel → Retentions
tallies [] = []
tallies (row ∷ rows) = tally row.purpose (tallies rows)

-- `exclude(purpose__in=set(retentions()))`
abbrev pub is_unmanaged : Settings → GenericTokenModel → Bool
is_unmanaged cfg row = not (exists (λ e. same_purpose row.purpose e.0) (retentions cfg))

unfoldable pub unknown_purposes : Settings → Db → Retentions
unknown_purposes cfg s = tallies (select (is_unmanaged cfg) s.tokens)

-- `sum(removed.values())`
unfoldable pub sum : Retentions → ℕ
sum [] = 0
sum ((purpose, n) ∷ d) = n + sum d

pub record Summary : Type 0 where
  pub removed : Retentions
  pub sessions : ℕ
  pub total : ℕ
  pub unmanaged : Retentions

-- `Command.handle`: the two purges read the clock one after the other.
unfoldable pub handle : Settings → Bool → ℕ → ℕ → Db → Summary × Db
handle cfg dry_run now later s =
    let (removed, s1) = purge cfg dry_run now s in
    let (sessions, s2) = purge_sessions cfg dry_run later s1 in
    (
      record {
        removed = removed;
        sessions = sessions;
        total = sum removed + sessions;
        unmanaged = unknown_purposes cfg s2;
      },
      s2,
    )

count-length-delete :
    {A : Type 0} (q : A → Bool) (rows : List A)
    → count q rows + length (delete q rows) ≡ length rows
unfolding count delete
count-length-delete q [] = refl
count-length-delete q (row ∷ rows) = ground (arith, count-length-delete q rows)

sum-report : (purpose : Purpose) (n : ℕ) (d : Retentions) → sum (report purpose n d) ≡ n + sum d
unfolding sum
sum-report purpose n d = ground arith

purge_all-sum :
    (now : ℕ) (d : Retentions) (s : Db)
    → let (removed, s') = purge_all false now d s in
      (sum removed + length s'.tokens ≡ length s.tokens) × (s'.whitelist ≡ s.whitelist)
unfolding purge_all sum
purge_all-sum now [] s = (omega arith, refl)
purge_all-sum now ((purpose, retention) ∷ d) s =
    let query = expired purpose retention now in
    let s1 = record s { tokens = delete query s.tokens } in
    let (summed, kept) = purge_all-sum now d s1 in
    (
      omega (
        arith,
        sum-report purpose (count query s.tokens) (purge_all false now d s1).0,
        count-length-delete query s.tokens,
        summed,
      ),
      kept,
    )

pub purge-sum :
    (cfg : Settings) (now : ℕ) (s : Db)
    → let (removed, s') = purge cfg false now s in
      (sum removed + length s'.tokens ≡ length s.tokens) × (s'.whitelist ≡ s.whitelist)
unfolding purge
purge-sum cfg now s = purge_all-sum now (retentions cfg) s
