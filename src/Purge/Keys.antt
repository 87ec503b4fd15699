-- ===== src/Purge/Keys.antt =====
-- The purposes of the retentions are the keys of a dict, so a dry run counts what a purge deletes.
use jwt_allauth.Base.{
  ℕ, ◌≡◌, refl, ◌∙◌, ap, sym, inl, inr, Bool, true, false, [], ◌∷◌, arith, Bool-cases, exists,
  count, count-delete,
}
use jwt_allauth.Db.{GenericTokenModel, Db, Purpose, same_purpose}
use jwt_allauth.Generic.{delete_tokens}
use jwt_allauth.Purge.{
  Retentions, set_item, update, built_in, retentions, expired, report, purge_all, purge,
}
use jwt_allauth.Settings.{Settings}

abbrev has_key : Purpose → Retentions → Bool
has_key purpose d = exists (λ e. same_purpose e.0 purpose) d

abbrev IsDict : Retentions → Type 0
IsDict [] = Unit
IsDict ((purpose, _) ∷ d) = (has_key purpose d ≡ false) × IsDict d

set_item-has_key :
    (key purpose : Purpose) (retention : ℕ) (d : Retentions)
    → has_key key d ≡ false
    → same_purpose purpose key ≡ false
    → has_key key (set_item purpose retention d) ≡ false
unfolding set_item exists
set_item-has_key key purpose retention [] h apart = ground arith
set_item-has_key key purpose retention ((present, old) ∷ d) h apart =
    ground (arith, set_item-has_key key purpose retention d)

set_item-IsDict :
    (purpose : Purpose) (retention : ℕ) (d : Retentions)
    → IsDict d
    → IsDict (set_item purpose retention d)
unfolding set_item exists
set_item-IsDict purpose retention [] h = (ground arith, tt)
set_item-IsDict purpose retention ((present, old) ∷ d) h =
    elim (Bool-cases (same_purpose purpose present)) [
      | inl same ↦ rw same h
      | inr apart ↦ rw apart (
        set_item-has_key present purpose retention d h.0 apart,
        set_item-IsDict purpose retention d h.1,
      )
    ]

update-IsDict : (known rest : Retentions) → IsDict known → IsDict (update known rest)
unfolding update
update-IsDict known [] h = h
update-IsDict known ((purpose, retention) ∷ rest) h =
    update-IsDict (set_item purpose retention known) rest
      (set_item-IsDict purpose retention known h)

retentions-IsDict : (cfg : Settings) → IsDict (retentions cfg)
unfolding retentions built_in exists
retentions-IsDict cfg =
    update-IsDict _ cfg.token_retention
      (refl, (refl, (refl, (refl, (refl, (refl, (refl, (refl, (refl, (refl, tt))))))))))

expired-apart :
    (p q : Purpose) (r t now : ℕ) (row : GenericTokenModel)
    → same_purpose p q ≡ false
    → expired p r now row ≡ true
    → expired q t now row ≡ false
expired-apart p q r t now row apart fits = ground arith

-- A dry run reads nothing of a purpose that it does not list.
dry-delete :
    (purpose : Purpose) (retention now : ℕ) (d : Retentions) (s : Db)
    → has_key purpose d ≡ false
    → (purge_all true now d (delete_tokens (expired purpose retention now) s)).0
      ≡ (purge_all true now d s).0
unfolding purge_all exists
dry-delete purpose retention now [] s h = refl
dry-delete purpose retention now ((p, r) ∷ d) s h =
    rw
      (count-delete (expired p r now) (expired purpose retention now)
        (λ row. expired-apart p purpose r retention now row (ground arith)) s.tokens)
      (ap (report p (count (expired p r now) s.tokens))
        (dry-delete purpose retention now d s (ground arith)))

dry_run-agrees :
    (now : ℕ) (d : Retentions) (s : Db)
    → IsDict d
    → (purge_all true now d s).0 ≡ (purge_all false now d s).0
unfolding purge_all
dry_run-agrees now [] s h = refl
dry_run-agrees now ((p, r) ∷ d) s (absent, rest) =
    ap (report p (count (expired p r now) s.tokens)) (
      sym (dry-delete p r now d s absent)
      ∙ dry_run-agrees now d (delete_tokens (expired p r now) s) rest)

dry_run-writes : (now : ℕ) (d : Retentions) (s : Db) → (purge_all true now d s).1 ≡ s
unfolding purge_all
dry_run-writes now [] s = refl
dry_run-writes now ((p, r) ∷ d) s = dry_run-writes now d s

-- A dry run reports what the purge at that instant removes, purpose by purpose, whatever the setting
-- adds or overrides, and it writes nothing.
pub dry_run_predicts_purge :
    (cfg : Settings) (now : ℕ) (s : Db)
    → ((purge cfg true now s).0 ≡ (purge cfg false now s).0) × ((purge cfg true now s).1 ≡ s)
unfolding purge
dry_run_predicts_purge cfg now s = (
  dry_run-agrees now (retentions cfg) s (retentions-IsDict cfg),
  dry_run-writes now (retentions cfg) s,
)
